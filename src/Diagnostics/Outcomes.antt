-- ===== src/Diagnostics/Outcomes.antt =====
-- How an operation ends: `_consume` over the frames of the gateway and the way their stream ended.
use django_ops.Common.{
  ℕ, ◌≡◌, refl, Bool, true, false, Option, none, some, List, [], ◌∷◌, String, arith, if◌then◌else◌,
  ap, ◌∙◌, subst, err,
}
use django_ops.Common.Redact.{truncate}
use django_ops.Gateway.State
use django_ops.Gateway.Jobs.{start_diagnostics}
use django_ops.Gateway.State.{
  Gateway, AgentFrame, DiagnosticCheck, GatewayError, limits_not_positive, invalid_job_id,
  invalid_release_root, job_active, job_used, not_connected, no_capability, capacity_reached,
}
use django_ops.Diagnostics.State.{
  Status, Summary, checks, Operation, Table, find, update_where, is_terminal, is_active, running,
  failed, offline, overloaded, timeout,
}
use django_ops.Diagnostics.Service.{
  Ending, finished, timed_out, lookup_error, runtime_error, other_error, set_running, save_progress,
  save_result, save_error, save_frame, save_frames, save_ending, consume, map_result,
  bounded_checks, redact, is_pending, is_succeeded,
}
use django_ops.Diagnostics.Rows.{find-update_where, terminal-not-active}

-- The `except` clause of `_consume` that an error of the gateway reaches: `LookupError`,
-- `RuntimeError`, and `Exception` for its `ValueError`s.
unfoldable pub ending_of : GatewayError → Ending
ending_of not_connected = lookup_error
ending_of no_capability = lookup_error
ending_of capacity_reached = runtime_error
ending_of _ = other_error

-- The status that decides an operation: the first result's, or else that of the exception.
unfoldable pub outcome : List AgentFrame → Ending → Option Status
outcome [] finished = none
outcome [] timed_out = some timeout
outcome [] lookup_error = some offline
outcome [] runtime_error = some overloaded
outcome [] other_error = some failed
outcome (State.AgentFrame.result j n status c ∷ fs) e = some (map_result status)
outcome (_ ∷ fs) e = outcome fs e

-- The row is there and still pending or running.
abbrev pub IsOpen : ℕ → Table → Type 0
IsOpen pk t = (r : Operation) × (find pk t.rows ≡ some r) × (is_active r.status ≡ true)

-- The row has the status.
abbrev pub HasStatus : ℕ → Status → Table → Type 0
HasStatus pk st t = (r : Operation) × (find pk t.rows ≡ some r) × (r.status ≡ st)

-- The row has the status, or is open where there is none to have.
abbrev pub EndsWith : ℕ → Option Status → Table → Type 0
EndsWith pk none t = IsOpen pk t
EndsWith pk (some st) t = HasStatus pk st t

find-update :
    (pk : ℕ) (guard : Status → Bool) (f : Operation → Operation) (rows : List Operation)
    {r : Operation}
    → ((x : Operation) → (f x).pk ≡ x.pk)
    → find pk rows ≡ some r
    → find pk (update_where pk guard f rows) ≡ some (if guard r.status then f r else r)
find-update pk guard f rows keeps h = ground (arith, find-update_where pk pk guard f rows keeps)

set_running-IsOpen : (pk : ℕ) (t : Table) → IsOpen pk t → IsOpen pk (set_running t pk)
unfolding set_running is_active
set_running-IsOpen pk t (r, e, a) =
    let mark : Operation → Operation = λ x. record x { status = running } in
    (
      if is_pending r.status then mark r else r,
      find-update pk is_pending mark t.rows (λ _. refl) e,
      ground arith,
    )

save_progress-IsOpen :
    (pk : ℕ) (t : Table) (p m : String) → IsOpen pk t → IsOpen pk (save_progress t pk p m)
unfolding save_progress
save_progress-IsOpen pk t p m (r, e, a) =
    let mark : Operation → Operation =
      λ x. record x { result_summary = Summary.progress (truncate 64 p) (redact m) } in
    (mark r, find-update pk is_active mark t.rows (λ _. refl) e ∙ rw a, a)

-- an update of open rows only, of a row that is settled
update-HasStatus :
    (pk : ℕ) (st : Status) (f : Operation → Operation) (t : Table)
    → is_terminal st ≡ true
    → ((x : Operation) → (f x).pk ≡ x.pk)
    → HasStatus pk st t
    → HasStatus pk st (record t { rows = update_where pk is_active f t.rows })
update-HasStatus pk st f t final keeps (r, e, same) =
    let off : is_active r.status ≡ false = ap is_active same ∙ terminal-not-active st final in
    (r, find-update pk is_active f t.rows keeps e ∙ rw off, same)

save_error-HasStatus :
    (pk : ℕ) (st : Status) (code : String) (t : Table)
    → IsOpen pk t
    → HasStatus pk st (save_error t pk st code)
unfolding save_error
save_error-HasStatus pk st code t (r, e, a) =
    let f : Operation → Operation = λ x. record x { status = st; error_code = code } in
    (f r, find-update pk is_active f t.rows (λ _. refl) e ∙ rw a, refl)

save_result-HasStatus :
    (upper : String → String) (pk : ℕ) (status : String) (found : List DiagnosticCheck) (t : Table)
    → IsOpen pk t
    → HasStatus pk (map_result status) (save_result upper t pk status found)
unfolding save_result
save_result-HasStatus upper pk status found t (r, e, a) =
    let f : Operation → Operation = λ x. record x {
      status = map_result status;
      result_summary = checks found;
      error_code = if is_succeeded (map_result status) then "" else truncate 32 (upper status);
    } in
    (f r, find-update pk is_active f t.rows (λ _. refl) e ∙ rw a, refl)

map_result-terminal : (status : String) → is_terminal (map_result status) ≡ true
unfolding map_result is_terminal
map_result-terminal status = ground arith

save_frame-HasStatus :
    (upper : String → String) (pk : ℕ) (st : Status) (t : Table) (f : AgentFrame)
    → is_terminal st ≡ true
    → HasStatus pk st t
    → HasStatus pk st (save_frame upper pk t f)
unfolding save_frame save_progress save_result
save_frame-HasStatus upper pk st t (State.AgentFrame.progress j n p m) final h =
    update-HasStatus pk st _ t final (λ _. refl) h
save_frame-HasStatus upper pk st t (State.AgentFrame.result j n s c) final h =
    update-HasStatus pk st _ t final (λ _. refl) h
save_frame-HasStatus upper pk st t (State.AgentFrame.hello x) final h = h
save_frame-HasStatus upper pk st t State.AgentFrame.heartbeat final h = h
save_frame-HasStatus upper pk st t (State.AgentFrame.kubernetes_progress j n p m) final h = h
save_frame-HasStatus upper pk st t (State.AgentFrame.kubernetes_result k) final h = h
save_frame-HasStatus upper pk st t State.AgentFrame.unset final h = h

settled_ends :
    (upper : String → String) (pk : ℕ) (st : Status) (t : Table) (fs : List AgentFrame) (e : Ending)
    → is_terminal st ≡ true
    → HasStatus pk st t
    → HasStatus pk st (save_ending pk (save_frames upper pk t fs) e)
unfolding save_frames save_ending save_error
settled_ends upper pk st t [] finished final h = h
settled_ends upper pk st t [] timed_out final h = update-HasStatus pk st _ t final (λ _. refl) h
settled_ends upper pk st t [] lookup_error final h = update-HasStatus pk st _ t final (λ _. refl) h
settled_ends upper pk st t [] runtime_error final h = update-HasStatus pk st _ t final (λ _. refl) h
settled_ends upper pk st t [] other_error final h = update-HasStatus pk st _ t final (λ _. refl) h
settled_ends upper pk st t (f ∷ fs) e final h =
    settled_ends upper pk st (save_frame upper pk t f) fs e final
      (save_frame-HasStatus upper pk st t f final h)

open_ends :
    (upper : String → String) (pk : ℕ) (t : Table) (fs : List AgentFrame) (e : Ending)
    → IsOpen pk t
    → EndsWith pk (outcome fs e) (save_ending pk (save_frames upper pk t fs) e)
unfolding save_frames save_ending save_frame outcome
open_ends upper pk t [] finished h = h
open_ends upper pk t [] timed_out h = save_error-HasStatus pk _ _ t h
open_ends upper pk t [] lookup_error h = save_error-HasStatus pk _ _ t h
open_ends upper pk t [] runtime_error h = save_error-HasStatus pk _ _ t h
open_ends upper pk t [] other_error h = save_error-HasStatus pk _ _ t h
open_ends upper pk t (State.AgentFrame.result j n s c ∷ fs) e h =
    settled_ends upper pk (map_result s) _ fs e (map_result-terminal s)
      (save_result-HasStatus upper pk s (bounded_checks c) t h)
open_ends upper pk t (State.AgentFrame.progress j n p m ∷ fs) e h =
    open_ends upper pk (save_progress t pk p m) fs e (save_progress-IsOpen pk t p m h)
open_ends upper pk t (State.AgentFrame.hello x ∷ fs) e h = open_ends upper pk t fs e h
open_ends upper pk t (State.AgentFrame.heartbeat ∷ fs) e h = open_ends upper pk t fs e h
open_ends upper pk t (State.AgentFrame.kubernetes_progress j n p m ∷ fs) e h =
    open_ends upper pk t fs e h
open_ends upper pk t (State.AgentFrame.kubernetes_result k ∷ fs) e h = open_ends upper pk t fs e h
open_ends upper pk t (State.AgentFrame.unset ∷ fs) e h = open_ends upper pk t fs e h

-- Where no other task writes to a row that is pending or running, `_consume` leaves it with the status
-- of the first result among the frames, whatever comes after it; without a result, with the status of
-- the exception that ended the stream; and still pending or running only if the stream ended by itself
-- without a result.
pub consume_ends :
    (upper : String → String) (t : Table) (pk : ℕ) (fs : List AgentFrame) (e : Ending)
    → IsOpen pk t
    → EndsWith pk (outcome fs e) (consume upper t pk fs e)
unfolding consume
consume_ends upper t pk fs e h =
    open_ends upper pk (set_running t pk) fs e (set_running-IsOpen pk t h)

ending_of-settles : (e : GatewayError) → (st : Status) × (outcome [] (ending_of e) ≡ some st)
unfolding ending_of outcome
ending_of-settles limits_not_positive = (failed, refl)
ending_of-settles invalid_job_id = (failed, refl)
ending_of-settles invalid_release_root = (failed, refl)
ending_of-settles job_active = (failed, refl)
ending_of-settles job_used = (failed, refl)
ending_of-settles not_connected = (offline, refl)
ending_of-settles no_capability = (offline, refl)
ending_of-settles capacity_reached = (overloaded, refl)

outcome-terminal :
    (fs : List AgentFrame) (e : Ending) (st : Status)
    → outcome fs e ≡ some st
    → is_terminal st ≡ true
unfolding outcome is_terminal
outcome-terminal [] e st h = ground arith
outcome-terminal (State.AgentFrame.result j n s c ∷ fs) e st h =
    subst (λ x. is_terminal x ≡ true) (cc) (map_result-terminal s)
outcome-terminal (State.AgentFrame.progress j n p m ∷ fs) e st h = outcome-terminal fs e st h
outcome-terminal (State.AgentFrame.hello x ∷ fs) e st h = outcome-terminal fs e st h
outcome-terminal (State.AgentFrame.heartbeat ∷ fs) e st h = outcome-terminal fs e st h
outcome-terminal (State.AgentFrame.kubernetes_progress j n p m ∷ fs) e st h =
    outcome-terminal fs e st h
outcome-terminal (State.AgentFrame.kubernetes_result k ∷ fs) e st h = outcome-terminal fs e st h
outcome-terminal (State.AgentFrame.unset ∷ fs) e st h = outcome-terminal fs e st h

-- When the gateway refuses the diagnostic of an operation that is pending or running, with any of its
-- errors, the operation is left in the status that the error decides, and that status is terminal.
pub refused_ends :
    (upper : String → String) (g : Gateway) (a j root : String) (e : GatewayError) (t : Table)
    (pk : ℕ)
    → start_diagnostics g a j root ≡ err e
    → IsOpen pk t
    → (st : Status) × (outcome [] (ending_of e) ≡ some st)
      × (is_terminal st ≡ true)
      × HasStatus pk st (consume upper t pk [] (ending_of e))
refused_ends upper g a j root e t pk refused h =
    let (st, o) = ending_of-settles e in
    (
      st,
      o,
      outcome-terminal [] (ending_of e) st o,
      subst (λ x. EndsWith pk x (consume upper t pk [] (ending_of e))) o
          (consume_ends upper t pk [] (ending_of e) h),
    )
