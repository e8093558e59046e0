-- ===== src/Gateway/Invariant/Capacity.antt =====
-- No agent has more jobs than the gateway's limit.
use django_ops.Common.{
  ◌+◌, ◌≤◌, ◌≡◌, refl, inl, inr, ◌==◌, String, arith, ap, subst, Bool-cases, eq_iff, if◌then◌else◌,
  none, sym, ◌<◌,
}
use django_ops.Common.Dict.{
  Dict, lookup, insert, count_where, count-insert, count-erase-le, count-modify,
}
use django_ops.Gateway.State.{JobState, Gateway, after}
use django_ops.Gateway.Jobs.{inflight}
use django_ops.Gateway.Sessions.{fail_jobs}
use django_ops.Gateway.Cases.{remember_completed_cases}
use django_ops.Gateway.Invariant.Queues.{
  Change, job, session, opens, drops, remembers, registers, unregisters, fails, fail_jobs_elim,
}

abbrev pub WithinCapacity : Gateway → Type 0
WithinCapacity g = (a : String) → inflight a g.jobs ≤ g.max_inflight_per_agent

pub inflight-insert :
    (a j : String) (st : JobState) (d : Dict JobState)
    → lookup j d ≡ none
    → inflight a (insert j st d) ≡ inflight a d + (if st.agent_id == a then 1 else 0)
unfolding inflight
inflight-insert a j st d fresh = count-insert (λ s. s.agent_id == a) j st d fresh

fail_jobs-inflight :
    (a b : String) (d : Dict JobState) → inflight a (after (fail_jobs b d)) ≡ inflight a d
unfolding inflight count_where
fail_jobs-inflight a b =
    fail_jobs_elim (λ d e. inflight a e ≡ inflight a d) b (λ d. refl) (λ j s q d e _ h. rw h)

pub Change-WithinCapacity : {g h : Gateway} → Change g h → WithinCapacity g → WithinCapacity h
unfolding inflight
Change-WithinCapacity {g} (job j f own fits) c a =
    subst (λ n. n ≤ g.max_inflight_per_agent)
      (sym (count-modify (λ s. s.agent_id == a) j f g.jobs (λ s. ap (λ b. b == a) (own s)))) (c a)
Change-WithinCapacity (session b f fits) c a = c a
Change-WithinCapacity {g} (opens j st fresh room empty) c a = elim (Bool-cases (st.agent_id == a)) [
  | inl own ↦
      let e : st.agent_id ≡ a = (eq_iff st.agent_id a).0 own in
      let room' = subst (λ b. inflight b g.jobs < g.max_inflight_per_agent) e room in
      rw (count-insert (λ s. s.agent_id == a) j st g.jobs fresh, own) (omega arith)
  | inr other ↦
      rw (count-insert (λ s. s.agent_id == a) j st g.jobs fresh, other) (omega (arith, c a))
]
Change-WithinCapacity {g} (drops j) c a =
    omega (arith, c a, count-erase-le (λ s. s.agent_id == a) j g.jobs)
Change-WithinCapacity {g} (remembers j) c a =
    remember_completed_cases WithinCapacity g j (λ _. c) (λ _ _. c) (λ _ _. c) a
Change-WithinCapacity (registers b s empty) c a = c a
Change-WithinCapacity (unregisters b) c a = c a
Change-WithinCapacity {g} (fails b) c a = omega (arith, c a, fail_jobs-inflight a b g.jobs)
