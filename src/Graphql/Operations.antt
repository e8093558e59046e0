-- ===== src/Graphql/Operations.antt =====
-- The operations of other projects, where a diagnostic of one is started (controlplane/services.py).
use django_ops.Common.{
  ℕ, ◌+◌, ◌<◌, ◌≡◌, ◌≢◌, refl, sym, subst, ◌∙◌, ap, inl, inr, Bool, true, false, List, [], ◌∷◌,
  arith, String, ◌==◌, eqb, keep, drop, All, if◌then◌else◌, Bool-cases, Result, ok, err,
}
use django_ops.Diagnostics.State.{Operation, Table, has_pk, pks, pending, blank}
use django_ops.Diagnostics.Service.{
  ServiceError, StartAnswer, started, start_failed, started_row, start, in_history, trim_rows,
  trim_history, max_history_per_project,
}
use django_ops.Diagnostics.Starting.{save_start-fresh}
use django_ops.Graphql.Tables.{
  imp-All, both-All, keep-delete_pks, All-delete_pks, has_pk-drop, has_pk-history,
}

-- The keys of the table are below the next one, and each has one owner.
pub record Owned (owner : ℕ → ℕ) (t : Table) : Type 0 where
  pub rows : All (λ r. owner r.pk ≡ r.project_id) t.rows
  pub below : All (λ r. r.pk < t.next_pk) t.rows

abbrev pub of_project : ℕ → List Operation → List Operation
of_project other = keep (λ r. eqb r.project_id other)

started_row-fields :
    (r : Operation) (connected : Bool) (answer : StartAnswer)
    → ((started_row r connected answer).pk ≡ r.pk)
      × ((started_row r connected answer).project_id ≡ r.project_id)
unfolding started_row
started_row-fields r false answer = (refl, refl)
started_row-fields r true started = (refl, refl)
started_row-fields r true (start_failed true) = (refl, refl)
started_row-fields r true (start_failed false) = (refl, refl)

-- the owners, with that of one more key
abbrev pub with_owner : (ℕ → ℕ) → ℕ → ℕ → ℕ → ℕ
with_owner owner pk project k = if eqb k pk then project else owner k

insert-Owned :
    (owner : ℕ → ℕ) (t : Table) (row : Operation)
    → row.pk ≡ t.next_pk
    → Owned owner t
    → Owned
        (with_owner owner t.next_pk row.project_id)
        (record { rows = row ∷ t.rows; next_pk = t.next_pk + 1 })
insert-Owned owner t row e o = record {
  rows = (
    ground (arith, e),
    imp-All (λ r. (owner r.pk ≡ r.project_id) × (r.pk < t.next_pk))
        (λ r. with_owner owner t.next_pk row.project_id r.pk ≡ r.project_id) t.rows
        (λ r h. ground (arith, h.0, h.1))
        (both-All (λ r. owner r.pk ≡ r.project_id) (λ r. r.pk < t.next_pk) t.rows o.rows o.below),
  );
  below = (
    omega (arith, e),
    imp-All (λ r. r.pk < t.next_pk) (λ r. r.pk < t.next_pk + 1) t.rows (λ r h. omega (arith, h))
        o.below,
  );
}

-- Trimming the history of a project deletes only rows of it.
trim_history-others :
    (owner : ℕ → ℕ) (t : Table) (project other : ℕ)
    → project ≢ other
    → Owned owner t
    → of_project other (trim_history t project).rows ≡ of_project other t.rows
unfolding trim_history trim_rows
trim_history-others owner t project other ne o =
    keep-delete_pks other (drop max_history_per_project (pks (keep (in_history project) t.rows)))
      t.rows
      (imp-All (λ r. owner r.pk ≡ r.project_id)
        (λ r.
          has_pk r.pk (drop max_history_per_project (pks (keep (in_history project) t.rows))) ≡ true
          → r.project_id ≢ other)
        t.rows
        (λ r own h same. ne (
          sym (
            has_pk-history owner project r.pk t.rows o.rows
              (has_pk-drop r.pk max_history_per_project (pks (keep (in_history project) t.rows)) h))
          ∙ own
          ∙ same))
        o.rows)

trim_history-Owned :
    (owner : ℕ → ℕ) (t : Table) (project : ℕ) → Owned owner t → Owned owner (trim_history t project)
unfolding trim_history trim_rows
trim_history-Owned owner t project o =
    let ids = drop max_history_per_project (pks (keep (in_history project) t.rows)) in
    record {
      rows = All-delete_pks (λ r. owner r.pk ≡ r.project_id) ids t.rows o.rows;
      below = All-delete_pks (λ r. r.pk < t.next_pk) ids t.rows o.below;
    }

-- The table after a diagnostic of a project was accepted.
unfoldable started_table : Table → ℕ → Bool → StartAnswer → Table
started_table t project connected answer = record {
  rows =
      started_row
        (record {
          pk = t.next_pk;
          project_id = project;
          status = pending;
          result_summary = blank;
          error_code = "";
        })
        connected answer
      ∷ t.rows;
  next_pk = t.next_pk + 1;
}

abbrev table_or_empty : Result ServiceError (Table × Operation) → Table
table_or_empty (err e) = record { rows = []; next_pk = 0 }
table_or_empty (ok (t, row)) = t

module _ (owner : ℕ → ℕ) (t : Table) (project : ℕ) (o : Owned owner t) where
  abbrev owner' : ℕ → ℕ
  owner' = with_owner owner t.next_pk project

  started_table-Owned :
      (connected : Bool) (answer : StartAnswer)
      → Owned owner' (started_table t project connected answer)
  unfolding started_table
  started_table-Owned connected answer =
      let blank_row : Operation = record {
        pk = t.next_pk;
        project_id = project;
        status = pending;
        result_summary = blank;
        error_code = "";
      } in
      let row = started_row blank_row connected answer in
      let fields = started_row-fields blank_row connected answer in
      subst
        (λ k.
          Owned (with_owner owner t.next_pk k)
            (record { rows = row ∷ t.rows; next_pk = t.next_pk + 1 }))
        fields.1 (insert-Owned owner t row fields.0 o)

  module _ (diagnostic : String) (connected : Bool) (answer : StartAnswer) (t' : Table)
      (row : Operation) where
    start-table :
        start t project diagnostic connected answer ≡ ok (t', row)
        → trim_history (started_table t project connected answer) project ≡ t'
    unfolding started_table start
    start-table h =
        let saved = save_start-fresh t project connected answer o.below in
        elim (Bool-cases (diagnostic == "django_health")) [
          | inl e ↦
              ap (λ (x : Table). trim_history x project) (sym saved)
              ∙ ap table_or_empty (rw (e, start) at h)
          | inr e ↦ absurd (cc (rw (e, start) at h))
        ]

    -- A start leaves the operations of other projects, and the owners of all keys but the new one.
    pub start-Owned : start t project diagnostic connected answer ≡ ok (t', row) → Owned owner' t'
    start-Owned h = subst (Owned owner') (start-table h) (
        trim_history-Owned owner' (started_table t project connected answer) project
          (started_table-Owned connected answer))

    new_row :
        (other : ℕ)
        → project ≢ other
        → of_project other (started_table t project connected answer).rows ≡ of_project other t.rows
    unfolding started_table
    new_row other ne =
        let blank_row : Operation = record {
          pk = t.next_pk;
          project_id = project;
          status = pending;
          result_summary = blank;
          error_code = "";
        } in
        ground (arith, ne, (started_row-fields blank_row connected answer).1)

    pub start-others :
        (other : ℕ)
        → project ≢ other
        → start t project diagnostic connected answer ≡ ok (t', row)
        → of_project other t'.rows ≡ of_project other t.rows
    unfolding started_table
    start-others other ne h =
        subst (λ (x : Table). of_project other x.rows ≡ of_project other t.rows) (start-table h)
          (trim_history-others owner' (started_table t project connected answer) project other ne
              (started_table-Owned connected answer)
            ∙ new_row other ne)
