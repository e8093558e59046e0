-- ===== src/Observability/Seen.antt =====
-- controlplane/observability.py: `_remember` and the state that it keeps, the set `_seen` and the deque
-- `_seen_order`. The set is a list of its members in the order in which they were added.
use django_ops.Common.{
  ℕ, Bool, true, false, not, List, [], ◌∷◌, ◌++◌, String, ◌==◌, leb, length, member, keep,
  if◌then◌else◌,
}

-- `_MAX_SEEN`
abbrev pub max_seen : ℕ
max_seen = 2048

pub record Seen : Type 0 where
  pub keys : List String
  pub order : List String

abbrev pub nothing_seen : Seen
nothing_seen = record { keys = []; order = [] }

-- `_seen.discard(key)`
unfoldable pub discard : String → List String → List String
discard key keys = keep (λ k. not (k == key)) keys

-- `_seen.add(key)`
unfoldable pub add : String → List String → List String
add key keys = if member key keys then keys else keys ++ key ∷ []

-- `_seen.discard(_seen_order.popleft())`, with the deque. It runs on a deque that is full, where `popleft`
-- does not raise.
unfoldable pub forget_first : List String → List String → Seen
forget_first keys [] = record { keys = keys; order = [] }
forget_first keys (first ∷ rest) = record { keys = discard first keys; order = rest }

-- The state without the key that was remembered first, where the deque is full.
unfoldable pub make_room : Seen → Seen
make_room s = if leb max_seen (length s.order) then forget_first s.keys s.order else s

-- `_remember`: whether the key was new, and the state.
unfoldable pub remember : String → Seen → Bool × Seen
remember key s =
    let room = make_room s in
    if member key s.keys
    then (false, s)
    else (true, record { keys = add key room.keys; order = room.order ++ key ∷ [] })
