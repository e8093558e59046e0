-- ===== src/Diagnostics/Race.antt =====
-- A cancel between the two writes of `OperationsService.start` (controlplane/services.py).
use django_ops.Common.{ℕ, ◌≡◌, ◌≢◌, refl, ◌∙◌, true, false, some, String, arith, eqb}
use django_ops.Diagnostics.State.{
  Status, Operation, Table, find, is_terminal, is_active, failed, cancelled, disconnected, offline,
}
use django_ops.Diagnostics.Service.{
  StartAnswer, CancelAnswer, answered, cancel_timed_out, cancel_failed, started_row, created,
  create_row, save_start, save_error, cancel_write, cancel,
}
use django_ops.Diagnostics.Rows.{find-update_where}
use django_ops.Diagnostics.Starting.{started_row-pk}

find-create_row : (t : Table) (p : ℕ) → find t.next_pk (create_row t p).rows ≡ some (created t p)
unfolding find create_row
find-create_row t p = ground arith

cancel-create_row :
    (t : Table) (p : ℕ) (a : CancelAnswer)
    → cancel (create_row t p) (create_row t p) t.next_pk a
      ≡ cancel_write (create_row t p) t.next_pk a
unfolding cancel is_terminal
cancel-create_row t p a = rw (find-create_row t p, cancel) refl

-- The row after the cancel, with the status that it wrote.
abbrev closed_row : Table → ℕ → Status → String → Operation
closed_row t p st code = record (created t p) { status = st; error_code = code }

find-save_error :
    (t : Table) (p : ℕ) (st : Status) (code : String)
    → find t.next_pk (save_error (create_row t p) t.next_pk st code).rows
      ≡ some (closed_row t p st code)
unfolding save_error is_active
find-save_error t p st code =
    let f : Operation → Operation = λ r. record r { status = st; error_code = code } in
    let own : eqb t.next_pk t.next_pk ≡ true = ground arith in
    find-update_where t.next_pk t.next_pk is_active f (create_row t p).rows (λ r. refl)
    ∙ rw (find-create_row t p, own) refl

find-save_start :
    (t : Table) (pk : ℕ) (b : StartAnswer) (r : Operation)
    → find pk t.rows ≡ some r
    → find pk (save_start t pk false b).rows ≡ some (started_row r false b)
unfolding save_start
find-save_start t pk b r h =
    let own : eqb pk pk ≡ true = ground arith in
    find-update_where pk pk (λ s. true) (λ x. started_row x false b) t.rows
      (λ x. started_row-pk x false b)
    ∙ rw (h, own) refl

-- The row is found with a status that is terminal, and not the one that the start saves.
abbrev pub Closed : ℕ → Table → Type 0
Closed pk t =
    (r : Operation) × (find pk t.rows ≡ some r)
    × (is_terminal r.status ≡ true)
    × (r.status ≢ offline)

abbrev pub Offline : ℕ → Table → Type 0
Offline pk t = (r : Operation) × (find pk t.rows ≡ some r) × (r.status ≡ offline)

error-overwritten :
    (t : Table) (p : ℕ) (b : StartAnswer) (st : Status) (code : String)
    → is_terminal st ≡ true
    → st ≢ offline
    → let closed = save_error (create_row t p) t.next_pk st code in
      Closed t.next_pk closed × Offline t.next_pk (save_start closed t.next_pk false b)
unfolding started_row
error-overwritten t p b st code final other =
    let r = closed_row t p st code in
    let found = find-save_error t p st code in
    (
      (r, found, final, other),
      (
        started_row r false b,
        find-save_start (save_error (create_row t p) t.next_pk st code) t.next_pk b r found,
        refl,
      ),
    )

written-overwritten :
    (t : Table) (p : ℕ) (a : CancelAnswer) (b : StartAnswer)
    → let closed = cancel_write (create_row t p) t.next_pk a in
      Closed t.next_pk closed × Offline t.next_pk (save_start closed t.next_pk false b)
unfolding cancel_write is_terminal
written-overwritten t p cancel_timed_out b =
    error-overwritten t p b failed "CANCEL_TIMEOUT" refl (λ e. cc)
written-overwritten t p cancel_failed b =
    error-overwritten t p b failed "CANCEL_FAILED" refl (λ e. cc)
written-overwritten t p (answered true) b = error-overwritten t p b cancelled "" refl (λ e. cc)
written-overwritten t p (answered false) b =
    error-overwritten t p b disconnected "CANCEL_UNAVAILABLE" refl (λ e. cc)

-- A cancel that comes between the creation of a diagnostic's row and the save of its failed start is lost: the
-- cancel leaves the row terminal and not offline, whatever the backend answers it, and for an agent that is not
-- connected the save then makes the row offline.
pub save_start-cancel :
    (t : Table) (p : ℕ) (a : CancelAnswer) (b : StartAnswer)
    → let opened = create_row t p in
      let closed = cancel opened opened t.next_pk a in
      Closed t.next_pk closed × Offline t.next_pk (save_start closed t.next_pk false b)
save_start-cancel t p a b = rw (cancel-create_row t p a) (written-overwritten t p a b)
