-- ===== src/Observability/Noticed.antt =====
-- What the handlers of `post_save` report (controlplane/observability.py), described by the saves alone.
use django_ops.Common.{
  ◌+◌, ◌≡◌, refl, ◌∙◌, inl, inr, true, false, List, [], ◌∷◌, String, length, ◌≤◌, member,
  if◌then◌else◌, Bool-cases, ap, arith,
}
use django_ops.Telemetry.Counters.{total}
use django_ops.Telemetry.State.{Telemetry, same_labels}
use django_ops.Telemetry.Steps.{Event, observes, observe, step, run}
use django_ops.Telemetry.Totals.{observed, run-totals}
use django_ops.Integrations.Parser.{is_distinct}
use django_ops.Observability.Seen.{nothing_seen, max_seen, remember}
use django_ops.Observability.Saves.{
  Observed, notice, Save, is_over, key_of, token_of, observation_of, saved, save_all,
}
use django_ops.Observability.Window.{IsSeen, slide, IsRemembered, remember-IsRemembered}

-- One observation for each save with a terminal status whose key is not among the last `max_seen` new ones.
unfoldable pub noticed : List String → List Save → List Event
noticed order [] = []
noticed order (x ∷ xs) =
    let again = noticed order xs in
    let later = noticed (slide (key_of x) order) xs in
    if is_over x
    then (if member (key_of x) order
        then again
        else observes (token_of x) (observation_of x) ∷ later)
    else again

-- The state after the save of a row whose status is terminal.
abbrev over : Save → Observed → Observed
over x s =
    let answer = remember (key_of x) s.seen in
    record {
      seen = answer.1;
      telemetry =
          if answer.0 then observe s.telemetry (token_of x) (observation_of x) else s.telemetry;
    }

saved-over : (x : Save) (s : Observed) → is_over x ≡ true → saved x s ≡ over x s
unfolding saved notice
saved-over x s e = rw e refl

saved-passed : (x : Save) (s : Observed) → is_over x ≡ false → saved x s ≡ s
unfolding saved notice
saved-passed x s e = rw e refl

-- The telemetry went through these events, and the set still agrees with the deque.
record IsReport (t : Telemetry) (es : List Event) (s : Observed) : Type 0 where
  telemetry : s.telemetry ≡ run t es
  seen : IsSeen s.seen

over-IsReport :
    (x : Save) (xs : List Save) (s : Observed)
    → IsRemembered (key_of x) s.seen.order (remember (key_of x) s.seen)
    → is_over x ≡ true
    → IsReport (over x s).telemetry (noticed (over x s).seen.order xs) (save_all xs (over x s))
    → IsReport s.telemetry (noticed s.seen.order (x ∷ xs)) (save_all xs (over x s))
unfolding noticed run step
over-IsReport x xs s r e h = elim (Bool-cases (member (key_of x) s.seen.order)) [
  | inl m ↦
      let old : (remember (key_of x) s.seen).0 ≡ false = r.is_new ∙ rw m refl in
      let order : (remember (key_of x) s.seen).1.order ≡ s.seen.order = r.order_after ∙ rw m refl in
      record { telemetry = h.telemetry ∙ rw (old, order, e, m) refl; seen = h.seen }
  | inr m ↦
      let new : (remember (key_of x) s.seen).0 ≡ true = r.is_new ∙ rw m refl in
      let order : (remember (key_of x) s.seen).1.order ≡ slide (key_of x) s.seen.order =
        r.order_after ∙ rw m refl in
      record { telemetry = h.telemetry ∙ rw (new, order, e, m) refl; seen = h.seen }
]

none_noticed : (s : Observed) → s.telemetry ≡ run s.telemetry (noticed s.seen.order [])
unfolding noticed run
none_noticed s = refl

noticed-passed :
    (x : Save) (xs : List Save) (s : Observed)
    → is_over x ≡ false
    → noticed s.seen.order (x ∷ xs) ≡ noticed s.seen.order xs
unfolding noticed
noticed-passed x xs s e = rw e refl

nothing_seen-IsSeen : IsSeen nothing_seen
unfolding is_distinct
nothing_seen-IsSeen = record { same = refl; distinct = refl; bounded = omega arith }

save_all-IsReport :
    (xs : List Save) (s : Observed)
    → IsSeen s.seen
    → IsReport s.telemetry (noticed s.seen.order xs) (save_all xs s)
unfolding save_all
save_all-IsReport [] s h = record { telemetry = none_noticed s; seen = h }
save_all-IsReport (x ∷ xs) s h = elim (Bool-cases (is_over x)) [
  | inr e ↦ rw (saved-passed x s e, noticed-passed x xs s e) (save_all-IsReport xs s h)
  | inl e ↦
      let r = remember-IsRemembered (key_of x) s.seen h in
      rw (saved-over x s e) (over-IsReport x xs s r e (save_all-IsReport xs (over x s) r.seen))
]

-- Whatever rows are saved, from a state in which nothing was seen, the telemetry is the one that observes just
-- the saves with a terminal status whose key is not among the last 2048 new ones, its counters grow by their
-- number, and the set has the members of the deque, which are distinct and at most 2048.
pub save_all-noticed :
    (xs : List Save) (t : Telemetry)
    → let after = save_all xs (record { seen = nothing_seen; telemetry = t }) in
      (after.telemetry ≡ run t (noticed [] xs))
      × (total same_labels after.telemetry.counts
          ≡ total same_labels t.counts + observed (noticed [] xs))
      × (after.seen.keys ≡ after.seen.order)
      × (is_distinct after.seen.order ≡ true)
      × (length after.seen.order ≤ max_seen)
save_all-noticed xs t =
    let start : Observed = record { seen = nothing_seen; telemetry = t } in
    let h = save_all-IsReport xs start nothing_seen-IsSeen in
    (
      h.telemetry,
      ap (λ (u : Telemetry). total same_labels u.counts) h.telemetry
          ∙ (run-totals (noticed [] xs) t).0,
      h.seen.same,
      h.seen.distinct,
      h.seen.bounded,
    )
