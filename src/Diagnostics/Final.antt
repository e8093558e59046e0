-- ===== src/Diagnostics/Final.antt =====
-- A terminal status is final, whatever the tasks that write to the table do and in whatever order.
use django_ops.Common.{
  ℕ, ◌<◌, ◌≡◌, not, eqb, All, refl, ◌⊎◌, inl, inr, Bool, true, false, none, some, List, [], ◌∷◌,
  String, arith, Bool-cases, Option-cases, drop, keep,
}
use django_ops.Gateway.State
use django_ops.Gateway.State.{AgentFrame}
use django_ops.Diagnostics.State.{
  Status, Operation, Table, find, update_where, pks, is_terminal, is_active,
}
use django_ops.Diagnostics.Service.{
  Ending, finished, timed_out, lookup_error, runtime_error, other_error, answered, cancel_timed_out,
  cancel_failed, in_history, StartAnswer, CancelAnswer, set_running, save_progress, save_result,
  save_frame, save_error, save_ending, started_row, create_row, save_start, trim_rows, trim_history,
  cancel_write, cancel,
}
use django_ops.Diagnostics.Starting.{started_row-pk}
use django_ops.Diagnostics.Rows.{find-update_where, find-delete_pks, terminal-not-active}

-- One write to the table by some task: of `_consume`, of `OperationsService.cancel` with the table as
-- it saw it earlier, and the three of `OperationsService.start`, between which others may come: it creates the
-- row, saves how the start failed, and trims the history.
pub data Write : Type 0 where
  runs : ℕ → Write
  frames : ℕ → AgentFrame → Write
  ends : ℕ → Ending → Write
  cancels : Table → ℕ → CancelAnswer → Write
  creates : ℕ → Write
  saves_start : ℕ → Bool → StartAnswer → Write
  trims : ℕ → Write

unfoldable pub write : (String → String) → Table → Write → Table
write upper t (runs pk) = set_running t pk
write upper t (frames pk f) = save_frame upper pk t f
write upper t (ends pk e) = save_ending pk t e
write upper t (cancels seen pk a) = cancel seen t pk a
write upper t (creates project) = create_row t project
write upper t (saves_start pk connected a) = save_start t pk connected a
write upper t (trims project) = trim_history t project

-- The write is not the save by which the start of this row's own diagnostic ends.
unfoldable pub spares : ℕ → Write → Bool
spares pk (saves_start q connected a) = not (eqb pk q)
spares pk _ = true

unfoldable pub write_all : (String → String) → Table → List Write → Table
write_all upper t [] = t
write_all upper t (w ∷ ws) = write_all upper (write upper t w) ws

-- The row is as it was, or gone.
pub record Settled (r : Operation) (t : Table) : Type 0 where
  pub known : r.pk < t.next_pk
  pub same : (find r.pk t.rows ≡ some r) ⊎ (find r.pk t.rows ≡ none)

module _ (r : Operation) (final : is_terminal r.status ≡ true) where
  update-Settled :
      (t : Table) (q : ℕ) (guard : Status → Bool) (f : Operation → Operation)
      → ((x : Operation) → (f x).pk ≡ x.pk)
      → guard r.status ≡ false
      → Settled r t
      → Settled r (record t { rows = update_where q guard f t.rows })
  update-Settled t q guard f keeps off s = record {
    known = s.known;
    same = ground (arith, s.same, find-update_where r.pk q guard f t.rows keeps);
  }

  inactive : is_active r.status ≡ false
  inactive = terminal-not-active r.status final

  save_error-Settled :
      (t : Table) (q : ℕ) (st : Status) (code : String)
      → Settled r t
      → Settled r (save_error t q st code)
  unfolding save_error
  save_error-Settled t q st code s = update-Settled t q is_active _ (λ _. refl) inactive s

  set_running-Settled : (t : Table) (q : ℕ) → Settled r t → Settled r (set_running t q)
  unfolding set_running is_terminal
  set_running-Settled t q s = update-Settled t q _ _ (λ _. refl) (ground arith) s

  save_frame-Settled :
      (upper : String → String) (q : ℕ) (t : Table) (f : AgentFrame)
      → Settled r t
      → Settled r (save_frame upper q t f)
  unfolding save_frame save_progress save_result
  save_frame-Settled upper q t (State.AgentFrame.progress j n p m) s =
      update-Settled t q is_active _ (λ _. refl) inactive s
  save_frame-Settled upper q t (State.AgentFrame.result j n st c) s =
      update-Settled t q is_active _ (λ _. refl) inactive s
  save_frame-Settled upper q t (State.AgentFrame.hello h) s = s
  save_frame-Settled upper q t State.AgentFrame.heartbeat s = s
  save_frame-Settled upper q t (State.AgentFrame.kubernetes_progress j n p m) s = s
  save_frame-Settled upper q t (State.AgentFrame.kubernetes_result k) s = s
  save_frame-Settled upper q t State.AgentFrame.unset s = s

  save_ending-Settled :
      (q : ℕ) (t : Table) (e : Ending) → Settled r t → Settled r (save_ending q t e)
  unfolding save_ending
  save_ending-Settled q t finished s = s
  save_ending-Settled q t timed_out s = save_error-Settled t q _ _ s
  save_ending-Settled q t lookup_error s = save_error-Settled t q _ _ s
  save_ending-Settled q t runtime_error s = save_error-Settled t q _ _ s
  save_ending-Settled q t other_error s = save_error-Settled t q _ _ s

  cancel_write-Settled :
      (t : Table) (q : ℕ) (a : CancelAnswer) → Settled r t → Settled r (cancel_write t q a)
  unfolding cancel_write
  cancel_write-Settled t q cancel_timed_out s = save_error-Settled t q _ _ s
  cancel_write-Settled t q cancel_failed s = save_error-Settled t q _ _ s
  cancel_write-Settled t q (answered true) s = save_error-Settled t q _ _ s
  cancel_write-Settled t q (answered false) s = save_error-Settled t q _ _ s

  cancel-Settled :
      (seen t : Table) (q : ℕ) (a : CancelAnswer) → Settled r t → Settled r (cancel seen t q a)
  unfolding cancel
  cancel-Settled seen t q a s = elim (Option-cases (find q seen.rows)) [
    | inl e ↦ rw (e, cancel) s
    | inr (x, e) ↦ elim (Bool-cases (is_terminal x.status)) [
      | inl over ↦ rw (e, over, cancel) s
      | inr live ↦ rw (e, live, cancel) (cancel_write-Settled t q a s)
    ]
  ]

  trim_history-Settled : (t : Table) (p : ℕ) → Settled r t → Settled r (trim_history t p)
  unfolding trim_history trim_rows
  trim_history-Settled t p s = record {
    known = s.known;
    same =
        ground (
          arith,
          s.same,
          find-delete_pks r.pk (drop 200 (pks (keep (in_history p) t.rows))) t.rows,
        );
  }

  create_row-Settled : (t : Table) (p : ℕ) → Settled r t → Settled r (create_row t p)
  unfolding create_row find
  create_row-Settled t p s = record {
    known = omega (arith, s.known);
    same = ground (arith, s.same, s.known);
  }

  save_start-Settled :
      (t : Table) (q : ℕ) (c : Bool) (a : StartAnswer)
      → not (eqb r.pk q) ≡ true
      → Settled r t
      → Settled r (save_start t q c a)
  unfolding save_start
  save_start-Settled t q c a other s = record {
    known = s.known;
    same = ground (
      arith,
      s.same,
      other,
      find-update_where r.pk q (λ st. true) (λ x. started_row x c a) t.rows
          (λ x. started_row-pk x c a),
    );
  }

  write-Settled :
      (upper : String → String) (t : Table) (w : Write)
      → spares r.pk w ≡ true
      → Settled r t
      → Settled r (write upper t w)
  unfolding write spares
  write-Settled upper t (runs q) k s = set_running-Settled t q s
  write-Settled upper t (frames q f) k s = save_frame-Settled upper q t f s
  write-Settled upper t (ends q e) k s = save_ending-Settled q t e s
  write-Settled upper t (cancels seen q a) k s = cancel-Settled seen t q a s
  write-Settled upper t (creates p) k s = create_row-Settled t p s
  write-Settled upper t (saves_start q c a) k s = save_start-Settled t q c a k s
  write-Settled upper t (trims p) k s = trim_history-Settled t p s

-- Once the start of a diagnostic has returned: whatever tasks write to the table, in whatever order, with
-- whatever outdated view in a cancel and with starts of other diagnostics between whose writes others come, a
-- row whose status is terminal is afterwards either the same row, its status, result and error code included,
-- or deleted; no other row takes its key. The one write left out is the save that ends the row's own start.
pub terminal_final :
    (upper : String → String) (ws : List Write) (t : Table) (r : Operation)
    → is_terminal r.status ≡ true
    → Settled r t
    → All (λ w. spares r.pk w ≡ true) ws
    → Settled r (write_all upper t ws)
unfolding write_all
terminal_final upper [] t r final s k = s
terminal_final upper (w ∷ ws) t r final s k =
    terminal_final upper ws (write upper t w) r final (write-Settled r final upper t w k.0 s) k.1
