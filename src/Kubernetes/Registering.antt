-- ===== src/Kubernetes/Registering.antt =====
-- What a registration of a target leaves in the table, on every outcome.
use django_ops.Common.{
  ℕ, ◌+◌, ◌<◌, ◌≡◌, refl, sym, subst, inl, inr, true, false, not, List, [], ◌∷◌, String, arith,
  Bool-cases, Result-cases, Result, ok, err, All, any, keep, eqb, eq_refl,
}
use django_ops.Kubernetes.State.{KubernetesTarget, KubernetesError, identity_duplicate}
use django_ops.Kubernetes.Validation.{ParsedUrl}
use django_ops.Kubernetes.Targets.{
  Targets, Registration, Identity, Fields, same_identity, identity_of, is_taken, fields_of,
  target_row, checked_row, create_row, ValidateAnswer, settle_target, register_target,
}

-- Each row's key is below the next one.
abbrev pub FreshKey : Targets → Type 0
FreshKey t = All (λ r. r.pk < t.next_pk) t.rows

abbrev pub added : Targets → KubernetesTarget → Targets
added t r = record { rows = r ∷ t.rows; next_pk = t.next_pk + 1 }

create_row-eq-ok :
    (t t' : Targets) (r : KubernetesTarget)
    → create_row t r ≡ ok t'
    → (any (same_identity r) t.rows ≡ false) × (t' ≡ added t r)
unfolding create_row
create_row-eq-ok t t' r h = elim (Bool-cases (any (same_identity r) t.rows)) [
  | inl e ↦ cc (rw e at h)
  | inr e ↦ (e, cc (rw e at h))
]

pub create_row-ok :
    (t : Targets) (r : KubernetesTarget)
    → any (same_identity r) t.rows ≡ false
    → create_row t r ≡ ok (added t r)
unfolding create_row
create_row-ok t r e = rw (e, create_row) refl

-- What holds where the checks up to the creation have passed.
pub record Checked (urlparse : String → ParsedUrl) (t : Targets) (a : Registration)
    (r : KubernetesTarget) : Type 0 where
  pub identity : Identity
  pub fields : Fields
  pub identified : identity_of urlparse a ≡ ok identity
  pub free : any (is_taken a.project_id identity) t.rows ≡ false
  pub complete : fields_of a ≡ ok fields
  pub row : r ≡ target_row t.next_pk a identity fields

pub checked_row-Checked :
    (urlparse : String → ParsedUrl) (t : Targets) (a : Registration) (r : KubernetesTarget)
    → checked_row urlparse t a ≡ ok r
    → Checked urlparse t a r
unfolding checked_row
checked_row-Checked urlparse t a r h = elim (Result-cases (identity_of urlparse a)) [
  | inr (e, i) ↦ cc (rw i at h)
  | inl (x, i) ↦ elim (Bool-cases (any (is_taken a.project_id x) t.rows)) [
    | inl k ↦ cc (rw (i, k) at h)
    | inr k ↦ elim (Result-cases (fields_of a)) [
      | inr (e, f) ↦ cc (rw (i, k, f) at h)
      | inl (y, f) ↦ record {
        identity = x;
        fields = y;
        identified = i;
        free = k;
        complete = f;
        row = cc (rw (i, k, f) at h);
      }
    ]
  ]
]

not_taken_by_own :
    (pk : ℕ) (a : Registration) (i : Identity) (f : Fields)
    → is_taken a.project_id i (target_row pk a i f) ≡ false
unfolding is_taken target_row
not_taken_by_own pk a i f = ground arith

same_identity-rows :
    (pk k : ℕ) (a : Registration) (i : Identity) (f : Fields)
    → same_identity (target_row k a i f) (target_row pk a i f) ≡ true
unfolding same_identity target_row
same_identity-rows pk k a i f =
    ground (arith, eq_refl i.api_server, eq_refl i.namespace, eq_refl i.release_name)

-- After the creation of the row, the checks pass again and the database refuses the row.
pub again :
    (urlparse : String → ParsedUrl) (t : Targets) (a : Registration) (r : KubernetesTarget)
    (answer : ValidateAnswer)
    → checked_row urlparse t a ≡ ok r
    → register_target urlparse (added t r) a answer ≡ (added t r, err identity_duplicate)
unfolding register_target checked_row create_row
again urlparse t a r answer h =
    let c = checked_row-Checked urlparse t a r h in
    let next = target_row (t.next_pk + 1) a c.identity c.fields in
    let own : is_taken a.project_id c.identity r ≡ false =
      subst (λ x. is_taken a.project_id c.identity x ≡ false) (sym c.row)
        (not_taken_by_own t.next_pk a c.identity c.fields) in
    let same : same_identity next r ≡ true =
      subst (λ x. same_identity next x ≡ true) (sym c.row)
        (same_identity-rows t.next_pk (t.next_pk + 1) a c.identity c.fields) in
    let taken : any (is_taken a.project_id c.identity) (r ∷ t.rows) ≡ false =
      ground (arith, own, c.free) in
    let clash : any (same_identity next) (r ∷ t.rows) ≡ true = ground (arith, same) in
    let passed : checked_row urlparse (added t r) a ≡ ok next =
      rw (c.identified, taken, c.complete, checked_row) refl in
    let refused : create_row (added t r) next ≡ err identity_duplicate =
      rw (clash, create_row) refl in
    rw (passed, refused, register_target) refl

-- The outcomes of a registration: refused before a row is created, or settled with the row.
pub register_target_cases {κ} :
    (urlparse : String → ParsedUrl) (t : Targets) (a : Registration) (answer : ValidateAnswer)
    (P : Targets × Result KubernetesError KubernetesTarget → Type κ)
    → ((e : KubernetesError) → P (t, err e))
    → ((r : KubernetesTarget)
        → checked_row urlparse t a ≡ ok r
        → any (same_identity r) t.rows ≡ false
        → P (settle_target (added t r) r answer))
    → P (register_target urlparse t a answer)
unfolding register_target
register_target_cases urlparse t a answer P refused created =
    elim (Result-cases (checked_row urlparse t a)) [
      | inr (e, h) ↦ rw (h, register_target) (refused e)
      | inl (r, h) ↦ elim (Result-cases (create_row t r)) [
        | inr (e, k) ↦ rw (h, k, register_target) (refused e)
        | inl (t', k) ↦
            let (free, same) = create_row-eq-ok t t' r k in
            rw (h, k, register_target, same) (created r h free)
      ]
    ]

pub without-fresh :
    (pk : ℕ) (rows : List KubernetesTarget)
    → All (λ r. r.pk < pk) rows
    → keep (λ r. not (eqb r.pk pk)) rows ≡ rows
without-fresh pk [] a = refl
without-fresh pk (r ∷ rs) a = ground (arith, a.0, without-fresh pk rs a.1)
