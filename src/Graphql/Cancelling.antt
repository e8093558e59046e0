-- ===== src/Graphql/Cancelling.antt =====
-- The operations of other projects, where a diagnostic of one is cancelled (controlplane/services.py).
use django_ops.Common.{
  ℕ, ◌<◌, ◌≡◌, ◌≢◌, refl, sym, ◌∙◌, ap, inl, inr, true, false, String, Bool-cases, Option-cases,
}
use django_ops.Diagnostics.State.{
  Status, Operation, Table, find, is_active, is_terminal, failed, cancelled, disconnected,
}
use django_ops.Diagnostics.Service.{
  CancelAnswer, answered, cancel_timed_out, cancel_failed, save_error, cancel_write, cancel,
}
use django_ops.Graphql.Tables.{imp-All, keep-update_where, All-update_where}
use django_ops.Graphql.Operations.{Owned, of_project}

-- A cancel writes to the row with its key only.
save_error-others :
    (owner : ℕ → ℕ) (t : Table) (pk other : ℕ) (status : Status) (code : String)
    → owner pk ≢ other
    → Owned owner t
    → of_project other (save_error t pk status code).rows ≡ of_project other t.rows
unfolding save_error
save_error-others owner t pk other status code ne o =
    keep-update_where other pk is_active (λ r. record r { status = status; error_code = code })
      t.rows (λ r. refl)
      (imp-All (λ r. owner r.pk ≡ r.project_id) (λ r. r.pk ≡ pk → r.project_id ≢ other) t.rows
        (λ r own e same. ne (ap owner (sym e) ∙ own ∙ same)) o.rows)

save_error-Owned :
    (owner : ℕ → ℕ) (t : Table) (pk : ℕ) (status : Status) (code : String)
    → Owned owner t
    → Owned owner (save_error t pk status code)
unfolding save_error
save_error-Owned owner t pk status code o =
    let f : Operation → Operation = λ r. record r { status = status; error_code = code } in
    record {
      rows =
          All-update_where 0 pk is_active f (λ r. owner r.pk ≡ r.project_id) t.rows (λ r h. h)
            o.rows;
      below = All-update_where 0 pk is_active f (λ r. r.pk < t.next_pk) t.rows (λ r h. h) o.below;
    }

cancel_write-cases {κ} :
    (P : Table → Type κ) (t : Table) (pk : ℕ) (answer : CancelAnswer)
    → ((status : Status) (code : String) → P (save_error t pk status code))
    → P (cancel_write t pk answer)
unfolding cancel_write
cancel_write-cases P t pk (answered true) h = h cancelled ""
cancel_write-cases P t pk (answered false) h = h disconnected "CANCEL_UNAVAILABLE"
cancel_write-cases P t pk cancel_timed_out h = h failed "CANCEL_TIMEOUT"
cancel_write-cases P t pk cancel_failed h = h failed "CANCEL_FAILED"

-- A cancel is one such write or none.
cancel-cases {κ} :
    (P : Table → Type κ) (t : Table) (pk : ℕ) (answer : CancelAnswer)
    → P t
    → ((status : Status) (code : String) → P (save_error t pk status code))
    → P (cancel t t pk answer)
unfolding cancel
cancel-cases P t pk answer same written = elim (Option-cases (find pk t.rows)) [
  | inl e ↦ rw (e, cancel) same
  | inr (r, e) ↦ elim (Bool-cases (is_terminal r.status)) [
    | inl terminal ↦ rw (e, terminal, cancel) same
    | inr active ↦ rw (e, active, cancel) (cancel_write-cases P t pk answer written)
  ]
]

pub cancel-others :
    (owner : ℕ → ℕ) (t : Table) (pk other : ℕ) (answer : CancelAnswer)
    → owner pk ≢ other
    → Owned owner t
    → of_project other (cancel t t pk answer).rows ≡ of_project other t.rows
cancel-others owner t pk other answer ne o =
    cancel-cases (λ (x : Table). of_project other x.rows ≡ of_project other t.rows) t pk answer refl
      (λ status code. save_error-others owner t pk other status code ne o)

pub cancel-Owned :
    (owner : ℕ → ℕ) (t : Table) (pk : ℕ) (answer : CancelAnswer)
    → Owned owner t
    → Owned owner (cancel t t pk answer)
cancel-Owned owner t pk answer o =
    cancel-cases (Owned owner) t pk answer o
      (λ status code. save_error-Owned owner t pk status code o)
