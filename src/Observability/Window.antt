-- ===== src/Observability/Window.antt =====
-- `_remember` keeps a window on the keys that were new (controlplane/observability.py).
use django_ops.Common.{
  suc, ◌-◌, ◌≤◌, ◌≡◌, refl, ◌∙◌, sym, ap, inl, inr, Bool, true, false, not, ◌||◌, List, [], ◌∷◌,
  ◌++◌, String, ◌==◌, eq_iff, leb, length, length-append, member, if◌then◌else◌, Bool-cases,
  &&-eq-true, leb→le, eq_refl, subst, arith,
}
use django_ops.Telemetry.State.{last_of}
use django_ops.Integrations.Parser.{is_distinct}
use django_ops.Observability.Seen.{max_seen, Seen, discard, add, forget_first, make_room, remember}

-- The set has the members of the deque, which are distinct and not too many.
pub record IsSeen (s : Seen) : Type 0 where
  pub same : s.keys ≡ s.order
  pub distinct : is_distinct s.order ≡ true
  pub bounded : length s.order ≤ max_seen

-- The last so many keys, once one more is new.
abbrev pub slide : String → List String → List String
slide key order = last_of max_seen (order ++ key ∷ [])

member-append :
    (x k : String) (ks : List String) → member x (ks ++ k ∷ []) ≡ (member x ks || k == x)
member-append x k [] = ground arith
member-append x k (y ∷ ks) = ground (arith, member-append x k ks)

||-eq-false : (a b : Bool) → (a || b) ≡ false → (a ≡ false) × (b ≡ false)
||-eq-false a b h = ground arith

eq-false-sym : (x y : String) → (x == y) ≡ false → (y == x) ≡ false
eq-false-sym x y h = elim (Bool-cases (y == x)) [
  | inl e ↦ let back : (x == y) ≡ true = (eq_iff x y).1 (sym ((eq_iff y x).0 e)) in cc
  | inr e ↦ e
]

discard-absent : (k : String) (ks : List String) → member k ks ≡ false → discard k ks ≡ ks
unfolding discard
discard-absent k [] h = refl
discard-absent k (y ∷ ks) h = ground (arith, discard-absent k ks)

distinct-append :
    (k : String) (ks : List String)
    → is_distinct ks ≡ true
    → member k ks ≡ false
    → is_distinct (ks ++ k ∷ []) ≡ true
unfolding is_distinct
distinct-append k [] d h = refl
distinct-append k (y ∷ ks) d h =
    let (different, absent) = ||-eq-false (y == k) (member k ks) h in
    let other : (k == y) ≡ false = eq-false-sym y k different in
    let (new, rest) = &&-eq-true (not (member y ks)) (is_distinct ks) d in
    let after : is_distinct (ks ++ k ∷ []) ≡ true = distinct-append k ks rest absent in
    let out : member y (ks ++ k ∷ []) ≡ (member y ks || k == y) = member-append y k ks in
    ground arith

-- The state after room was made for a new key.
record HasRoom (key : String) (order : List String) (r : Seen) : Type 0 where
  same : r.keys ≡ r.order
  distinct : is_distinct r.order ≡ true
  free : suc (length r.order) ≤ max_seen
  absent : member key r.order ≡ false
  slides : r.order ++ key ∷ [] ≡ slide key order

slide-below :
    (key : String) (order : List String)
    → suc (length order) ≤ max_seen
    → order ++ key ∷ [] ≡ slide key order
unfolding last_of
slide-below key order h =
    let none_over : length (order ++ key ∷ []) - max_seen ≡ 0 =
      omega (arith, length-append order (key ∷ [])) in
    rw none_over refl

slide-full :
    (key first : String) (rest : List String)
    → suc (length rest) ≡ max_seen
    → rest ++ key ∷ [] ≡ slide key (first ∷ rest)
unfolding last_of
slide-full key first rest h =
    let one_over : suc (length (rest ++ key ∷ [])) - max_seen ≡ 1 =
      omega (arith, length-append rest (key ∷ [])) in
    rw one_over refl

discard-first :
    (first : String) (rest : List String)
    → not (member first rest) ≡ true
    → discard first (first ∷ rest) ≡ rest
unfolding discard
discard-first first rest h =
    let absent : member first rest ≡ false = ground arith in
    rw (eq_refl first) (discard-absent first rest absent)

make_room-HasRoom :
    (key : String) (order : List String)
    → is_distinct order ≡ true
    → length order ≤ max_seen
    → member key order ≡ false
    → HasRoom key order (make_room (record { keys = order; order = order }))
unfolding make_room forget_first is_distinct
make_room-HasRoom key [] d h new = record {
  same = refl;
  distinct = refl;
  free = omega arith;
  absent = refl;
  slides = slide-below key [] (omega arith);
}
make_room-HasRoom key (first ∷ rest) d h new =
    let (unique, distinct) = &&-eq-true (not (member first rest)) (is_distinct rest) d in
    let (different, absent) = ||-eq-false (first == key) (member key rest) new in
    elim (Bool-cases (leb max_seen (length (first ∷ rest)))) [
      | inl e ↦
          let at_end : length (first ∷ rest) ≡ max_seen =
            omega (arith, leb→le max_seen (length (first ∷ rest)) e, h) in
          let forgotten : HasRoom key (first ∷ rest) (forget_first (first ∷ rest) (first ∷ rest)) =
            record {
              same = discard-first first rest unique;
              distinct = distinct;
              free = omega arith;
              absent = absent;
              slides = slide-full key first rest at_end;
            } in
          subst (HasRoom key (first ∷ rest)) (rw e refl) forgotten
      | inr e ↦
          let below : suc (length (first ∷ rest)) ≤ max_seen = ground arith in
          let kept : HasRoom key (first ∷ rest)
              (record { keys = first ∷ rest; order = first ∷ rest }) =
            record {
              same = refl;
              distinct = d;
              free = below;
              absent = new;
              slides = slide-below key (first ∷ rest) below;
            } in
          subst (HasRoom key (first ∷ rest)) (rw e refl) kept
    ]

add-new :
    (key : String) (keys : List String) → member key keys ≡ false → add key keys ≡ keys ++ key ∷ []
unfolding add
add-new key keys h = rw h refl

-- What `_remember` does to a state whose set and deque agree.
pub record IsRemembered (key : String) (order : List String) (answer : Bool × Seen) : Type 0 where
  pub is_new : answer.0 ≡ not (member key order)
  pub seen : IsSeen answer.1
  pub order_after : answer.1.order ≡ (if member key order then order else slide key order)

remember-same :
    (key : String) (order : List String)
    → is_distinct order ≡ true
    → length order ≤ max_seen
    → IsRemembered key order (remember key (record { keys = order; order = order }))
unfolding remember
remember-same key order d h = elim (Bool-cases (member key order)) [
  | inl e ↦
      let same : IsSeen (record { keys = order; order = order }) = record {
        same = refl;
        distinct = d;
        bounded = h;
      } in
      let unchanged : IsRemembered key order (false, record { keys = order; order = order }) =
        record { is_new = rw e refl; seen = same; order_after = rw e refl } in
      subst (IsRemembered key order) (rw e refl) unchanged
  | inr e ↦
      let room = make_room-HasRoom key order d h e in
      let r = make_room (record { keys = order; order = order }) in
      let absent : member key r.keys ≡ false = rw room.same room.absent in
      let added : add key r.keys ≡ r.order ++ key ∷ [] =
        add-new key r.keys absent ∙ ap (λ ks. ks ++ key ∷ []) room.same in
      let grown : IsSeen (record { keys = add key r.keys; order = r.order ++ key ∷ [] }) = record {
        same = added;
        distinct = distinct-append key r.order room.distinct room.absent;
        bounded = omega (arith, length-append r.order (key ∷ []), room.free);
      } in
      let after : IsRemembered key order
          (true, record { keys = add key r.keys; order = r.order ++ key ∷ [] }) =
        record { is_new = rw e refl; seen = grown; order_after = rw e room.slides } in
      subst (IsRemembered key order) (rw e refl) after
]

pub remember-IsRemembered :
    (key : String) (s : Seen) → IsSeen s → IsRemembered key s.order (remember key s)
remember-IsRemembered key s h =
    let same : ◌≡◌ {A = Seen} (record { keys = s.order; order = s.order }) s =
      sym (ap (λ (ks : List String). record { keys = ks; order = s.order }) h.same) in
    subst (λ (r : Seen). IsRemembered key s.order (remember key r)) same
      (remember-same key s.order h.distinct h.bounded)
