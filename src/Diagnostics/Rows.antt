-- ===== src/Diagnostics/Rows.antt =====
-- What the queries on the table of operations find afterwards.
use mathlib.Core.Option
use django_ops.Common.{
  ℕ, ◌≡◌, refl, Bool, true, false, ◌&&◌, none, List, [], ◌∷◌, arith, eqb, ap, if◌then◌else◌,
}
use django_ops.Diagnostics.State.{
  Status, Operation, find, update_where, has_pk, delete_pks, is_terminal, is_active,
}

pub find-update_where :
    (pk q : ℕ) (guard : Status → Bool) (f : Operation → Operation) (rows : List Operation)
    → ((r : Operation) → (f r).pk ≡ r.pk)
    → find pk (update_where q guard f rows)
      ≡ Option.map (λ r. if eqb pk q && guard r.status then f r else r) (find pk rows)
unfolding find update_where
find-update_where pk q guard f [] keeps = refl
find-update_where pk q guard f (r ∷ rs) keeps =
    ground (arith, keeps r, find-update_where pk q guard f rs keeps)

pub find-delete_pks :
    (pk : ℕ) (ids : List ℕ) (rows : List Operation)
    → find pk (delete_pks ids rows) ≡ (if has_pk pk ids then none else find pk rows)
unfolding find delete_pks
find-delete_pks pk ids [] = ground arith
find-delete_pks pk ids (r ∷ rs) =
    ground (arith, find-delete_pks pk ids rs, λ (e : r.pk ≡ pk). ap (λ k. has_pk k ids) e)

pub terminal-not-active : (s : Status) → is_terminal s ≡ true → is_active s ≡ false
unfolding is_terminal is_active
terminal-not-active s h = ground arith
