-- ===== src/Diagnostics/Starting.antt =====
-- What `OperationsService.start` (controlplane/services.py) leaves in the table where nothing else writes to it.
use django_ops.Common.{
  ℕ, ◌+◌, ◌<◌, ◌≡◌, refl, ap, Bool, true, false, List, [], ◌∷◌, All, eqb, arith,
}
use django_ops.Diagnostics.State.{Status, Operation, Table, update_where}
use django_ops.Diagnostics.Service.{StartAnswer, started_row, created, create_row, save_start}

abbrev pub with_row : Table → Operation → Table
with_row t row = record { rows = row ∷ t.rows; next_pk = t.next_pk + 1 }

update_where-fresh :
    (pk : ℕ) (guard : Status → Bool) (f : Operation → Operation) (rows : List Operation)
    → All (λ r. r.pk < pk) rows
    → update_where pk guard f rows ≡ rows
unfolding update_where
update_where-fresh pk guard f [] a = refl
update_where-fresh pk guard f (r ∷ rs) a =
    let other : eqb r.pk pk ≡ false = ground (arith, a.0) in
    rw other (ap (λ xs. r ∷ xs) (update_where-fresh pk guard f rs a.1))

-- The save after the creation is to the new row only.
pub save_start-fresh :
    (t : Table) (p : ℕ) (c : Bool) (a : StartAnswer)
    → All (λ r. r.pk < t.next_pk) t.rows
    → save_start (create_row t p) t.next_pk c a ≡ with_row t (started_row (created t p) c a)
unfolding save_start create_row update_where
save_start-fresh t p c a below =
    let own : eqb t.next_pk t.next_pk ≡ true = ground arith in
    rw (own, update_where-fresh t.next_pk (λ s. true) (λ r. started_row r c a) t.rows below) refl

pub started_row-pk : (x : Operation) (c : Bool) (a : StartAnswer) → (started_row x c a).pk ≡ x.pk
unfolding started_row
started_row-pk x c a = ground arith
