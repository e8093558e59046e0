-- ===== src/Gateway/Invariant/Cache.antt =====
-- The memory of completed jobs: bounded, without repetition, the set and the deque in step.
use django_ops.Common.{
  ℕ, ◌≤◌, ◌<◌, ◌≡◌, refl, ◌==◌, false, not, ◌&&◌, ◌||◌, List, [], ◌∷◌, ◌++◌, String, arith, eq_iff,
  length, length-append, member, keep, sym, ◌∙◌, ◌-◌,
}
use django_ops.Gateway.State.{Gateway}
use django_ops.Gateway.Jobs.{evict}
use django_ops.Gateway.Cases.{remember_completed_cases}
use django_ops.Gateway.Invariant.Queues.{
  Change, job, session, opens, drops, remembers, registers, unregisters, fails,
}

pub member-append :
    (x : String) (xs ys : List String) → member x (xs ++ ys) ≡ (member x xs || member x ys)
member-append x [] ys = refl
member-append x (y ∷ xs) ys = ground (arith, member-append x xs ys)

member-keep :
    (x o : String) (xs : List String)
    → member x (keep (λ y. not (y == o)) xs) ≡ (member x xs && not (o == x))
member-keep x o [] = refl
member-keep x o (y ∷ xs) = ground (arith, member-keep x o xs, eq_iff y o, eq_iff y x, eq_iff o x)

-- no text stands twice
abbrev pub Distinct : List String → Type 0
Distinct [] = Unit
Distinct (x ∷ xs) = (member x xs ≡ false) × Distinct xs

Distinct-append :
    (xs : List String) (x : String) → member x xs ≡ false → Distinct xs → Distinct (xs ++ x ∷ [])
Distinct-append [] x fresh d = (refl, tt)
Distinct-append (y ∷ xs) x fresh d =
    ground (arith, Distinct-append xs x, member-append y xs (x ∷ []), eq_iff x y, eq_iff y x)

pub record MemoryFits (limit : ℕ) (jobs order : List String) : Type 0 where
  pub positive : 0 < limit
  pub bounded : length order ≤ limit
  pub distinct : Distinct order
  pub synced : (j : String) → member j jobs ≡ member j order

abbrev pub CacheFits : Gateway → Type 0
CacheFits g = MemoryFits g.max_completed_jobs g.completed_jobs g.completed_order

-- What is left after the oldest is dropped.
pub evict-synced :
    (jobs order : List String)
    → Distinct order
    → ((j : String) → member j jobs ≡ member j order)
    → let (jobs', order') = evict jobs order in
      Distinct order' × ((j : String) → member j jobs' ≡ member j order')
unfolding evict
evict-synced jobs [] d s = (tt, s)
evict-synced jobs (o ∷ order) d s = (d.1, λ j. go j)
  where
    go : (j : String) → member j (keep (λ y. not (y == o)) jobs) ≡ member j order
    go j = ground (arith, member-keep j o jobs, s j, eq_iff o j)

abbrev after_evict : Gateway → String → Gateway
after_evict g j =
    let (jobs, order) = evict g.completed_jobs g.completed_order in
    record g { completed_order = order ++ j ∷ []; completed_jobs = j ∷ jobs }

length-evict : (jobs order : List String) → length (evict jobs order).1 ≡ length order - 1
unfolding evict
length-evict jobs [] = omega arith
length-evict jobs (o ∷ order) = omega arith

-- One more text at the end of the order and at the head of the set.
append-synced :
    (j x : String) (jobs order : List String)
    → member x jobs ≡ member x order
    → member x (j ∷ jobs) ≡ member x (order ++ j ∷ [])
append-synced j x jobs order s = ground (arith, member-append x order (j ∷ []))

evict-fresh :
    (j : String) (jobs order : List String)
    → member j order ≡ false
    → member j (evict jobs order).1 ≡ false
unfolding evict
evict-fresh j jobs [] h = refl
evict-fresh j jobs (o ∷ order) h = ground arith

after_evict-CacheFits :
    (g : Gateway) (j : String)
    → CacheFits g
    → member j g.completed_jobs ≡ false
    → CacheFits (after_evict g j)
after_evict-CacheFits g j c new =
    let jobs = g.completed_jobs in
    let order = g.completed_order in
    let kept = evict-synced jobs order c.distinct c.synced in
    record {
      positive = c.positive;
      bounded = omega (
        arith,
        c.positive,
        c.bounded,
        length-evict jobs order,
        length-append (evict jobs order).1 (j ∷ []),
      );
      distinct =
          Distinct-append (evict jobs order).1 j (evict-fresh j jobs order (sym (c.synced j) ∙ new))
            kept.0;
      synced = λ x. append-synced j x (evict jobs order).0 (evict jobs order).1 (kept.1 x);
    }

pub Change-CacheFits : {g h : Gateway} → Change g h → CacheFits g → CacheFits h
Change-CacheFits (job j f own fits) c = c
Change-CacheFits (session a f fits) c = c
Change-CacheFits (opens j st fresh room empty) c = c
Change-CacheFits (drops j) c = c
Change-CacheFits {g} (remembers j) c =
    remember_completed_cases CacheFits g j (λ _. c)
      (λ new room. record {
        positive = c.positive;
        bounded = omega (arith, room, length-append g.completed_order (j ∷ []));
        distinct = Distinct-append g.completed_order j (sym (c.synced j) ∙ new) c.distinct;
        synced = λ x. append-synced j x g.completed_jobs g.completed_order (c.synced x);
      })
      (λ new full. after_evict-CacheFits g j c new)
Change-CacheFits (registers a s empty) c = c
Change-CacheFits (unregisters a) c = c
Change-CacheFits (fails a) c = c
