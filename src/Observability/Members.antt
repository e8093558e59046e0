-- ===== src/Observability/Members.antt =====
-- For whom `summary_for_project` of controlplane/observability.py makes a summary, and within which bounds.
use django_ops.Common.{
  ℕ, ◌+◌, ◌≤◌, ◌≡◌, refl, ◌⊎◌, inl, inr, Bool, true, false, ◌&&◌, List, [], ◌∷◌, eqb, length,
  length-take-le, keep, Bool-cases, &&-eq-true, eqb_iff, ok, err, arith,
}
use django_ops.Graphql.Site.{
  Project, Site, project_does_not_exist, get_where, is_member, sees, sees_among,
}
use django_ops.Observability.Summary.{
  Runtime, is_up, count_if, ObservabilitySummary, agents_in, newest_operations, newest_releases,
  failed_operation, failed_release, summary_for_project, summary_of,
}
use django_ops.Telemetry.State.{Telemetry}

count_if-le {ℓ} : {A : Type ℓ} (p : A → Bool) (xs : List A) → count_if p xs ≤ length xs
unfolding count_if
count_if-le p [] = omega arith
count_if-le p (x ∷ xs) = ground (arith, count_if-le p xs)

-- A project that the user may see is found, and no other.
FindsProject : List Project → ℕ → ℕ → Type 0
FindsProject ps user pk =
    ((sees_among ps user pk ≡ false)
      × (get_where project_does_not_exist (λ (p : Project). is_member user p && eqb p.pk pk) ps
          ≡ err project_does_not_exist))
    ⊎ ((sees_among ps user pk ≡ true)
        × (p : Project) × (get_where project_does_not_exist
              (λ (q : Project). is_member user q && eqb q.pk pk) ps
            ≡ ok p)
        × (p.pk ≡ pk))

get_where-FindsProject : (ps : List Project) (user pk : ℕ) → FindsProject ps user pk
unfolding FindsProject sees_among get_where
get_where-FindsProject [] user pk = inl (refl, refl)
get_where-FindsProject (p ∷ ps) user pk = elim (Bool-cases (is_member user p && eqb p.pk pk)) [
  | inl e ↦
      let (member, same) = &&-eq-true (is_member user p) (eqb p.pk pk) e in
      inr (rw (same, member) refl, p, rw e refl, (eqb_iff p.pk pk).0 same)
  | inr e ↦
      let other : (eqb p.pk pk && is_member user p) ≡ false = ground arith in
      rw (other, e) (get_where-FindsProject ps user pk)
]

-- The counts of a summary fit together.
pub record IsBounded (o : ObservabilitySummary) : Type 0 where
  pub connected : o.connected_agents ≤ o.total_agents
  pub operations : o.recent_operations ≤ 50
  pub releases : o.recent_releases ≤ 50
  pub failures : o.recent_failures ≤ o.recent_operations + o.recent_releases

summary_of-IsBounded :
    (runtime : Runtime) (t : Telemetry) (s : Site) (pk : ℕ) → IsBounded (summary_of runtime t s pk)
summary_of-IsBounded runtime t s pk = record {
  connected = count_if-le (is_up runtime) (agents_in s pk);
  operations = length-take-le 50 (keep (λ r. eqb r.project_id pk) s.operations.rows);
  releases = length-take-le 50 (keep (λ r. eqb r.project_id pk) s.releases.rows);
  failures = omega (
    arith,
    count_if-le failed_operation (newest_operations s pk),
    count_if-le failed_release (newest_releases s pk),
  );
}

-- A user who is not a member of the project is told that it does not exist; a member gets a summary, in which
-- at most all agents are connected, at most 50 operations and 50 releases are counted, and at most all of these
-- have failed.
pub summary_for_project-IsBounded :
    (runtime : Runtime) (t : Telemetry) (s : Site) (user pk : ℕ)
    → ((sees s user pk ≡ false)
        × (summary_for_project runtime t s user pk ≡ err project_does_not_exist))
      ⊎ ((sees s user pk ≡ true)
          × (o : ObservabilitySummary) × (summary_for_project runtime t s user pk ≡ ok o)
          × IsBounded o
          × (o.total_agents ≡ length (agents_in s pk)))
unfolding summary_for_project FindsProject
summary_for_project-IsBounded runtime t s user pk =
    elim (get_where-FindsProject s.projects user pk) [
      | inl (hidden, e) ↦ inl (hidden, rw e refl)
      | inr (seen, p, e, same) ↦ inr (
        seen,
        summary_of runtime t s p.pk,
        rw e refl,
        summary_of-IsBounded runtime t s p.pk,
        rw same refl,
      )
    ]
