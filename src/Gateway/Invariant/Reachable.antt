-- ===== src/Gateway/Invariant/Reachable.antt =====
-- The whole invariant, and that every history of events keeps it.
use django_ops.Common.{ℕ, ◌≡◌, refl, ok, List, [], ◌∷◌, String, arith, subst, ◌<◌}
use django_ops.Common.Dict.{Dict, count_where}
use django_ops.Gateway.State.{Gateway}
use django_ops.Gateway.Jobs.{inflight}
use django_ops.Gateway.Sessions.{new_gateway}
use django_ops.Gateway.Steps.{Event, step, run}
use django_ops.Gateway.Invariant.Queues.{Change, Changes, here, next, QueuesFit, Change-QueuesFit}
use django_ops.Gateway.Invariant.Changes.{step-Changes}
use django_ops.Gateway.Invariant.Capacity.{WithinCapacity, Change-WithinCapacity}
use django_ops.Gateway.Invariant.Cache.{CacheFits, Change-CacheFits}

pub record IsValid (g : Gateway) : Type 0 where
  pub queues : QueuesFit g
  pub capacity : WithinCapacity g
  pub cache : CacheFits g

Change-IsValid : {g h : Gateway} → Change g h → IsValid g → IsValid h
Change-IsValid c v = record {
  queues = Change-QueuesFit c v.queues;
  capacity = Change-WithinCapacity c v.capacity;
  cache = Change-CacheFits c v.cache;
}

Changes-IsValid : {g h : Gateway} → Changes g h → IsValid g → IsValid h
Changes-IsValid here v = v
Changes-IsValid (next cs c) v = Change-IsValid c (Changes-IsValid cs v)

run-IsValid_from : (g : Gateway) (es : List Event) → IsValid g → IsValid (run g es)
unfolding run
run-IsValid_from g [] v = v
run-IsValid_from g (e ∷ es) v =
    run-IsValid_from (step g e) es (Changes-IsValid (step-Changes g e v.queues) v)

abbrev initial : Dict String → ℕ → ℕ → Gateway
initial tokens m n = record {
  agent_tokens = tokens;
  sessions = [];
  jobs = [];
  completed_jobs = [];
  completed_order = [];
  max_completed_jobs = m;
  max_inflight_per_agent = n;
  next_ident = 0;
}

new_gateway-eq-ok :
    (tokens : Dict String) (m n : ℕ) {g : Gateway}
    → new_gateway tokens m n ≡ ok g
    → (0 < m) × (initial tokens m n ≡ g)
unfolding new_gateway
new_gateway-eq-ok tokens m n h = ground arith

pub new_gateway-IsValid :
    (tokens : Dict String) (m n : ℕ) {g : Gateway} → new_gateway tokens m n ≡ ok g → IsValid g
unfolding inflight count_where
new_gateway-IsValid tokens m n h =
    let (positive, e) = new_gateway-eq-ok tokens m n h in
    subst IsValid e (record {
      queues = (tt, tt);
      capacity = λ a. omega arith;
      cache = record {
        positive = positive;
        bounded = omega arith;
        distinct = tt;
        synced = λ j. refl;
      };
    })

-- A gateway that was constructed without an error keeps, through every history of events, each job
-- queue and each outgoing queue within 32 frames, each agent's active jobs within the limit given at
-- construction, and the memory of completed jobs within its own limit, free of repetition, with the
-- set and the deque holding the same identifiers.
pub run-IsValid :
    (tokens : Dict String) (m n : ℕ) {g : Gateway} (es : List Event)
    → new_gateway tokens m n ≡ ok g
    → IsValid (run g es)
run-IsValid tokens m n {g} es h = run-IsValid_from g es (new_gateway-IsValid tokens m n h)
