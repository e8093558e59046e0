-- ===== src/Kubernetes/Uniqueness.antt =====
-- The table of releases through every interleaving of events: one open row for a release, and rows
-- that are over stay as they are.
use django_ops.Common.{
  ℕ, ◌+◌, ◌≤◌, ◌≡◌, refl, sym, subst, inl, inr, Bool, true, false, ◌&&◌, Option, none, some, List,
  [], ◌∷◌, String, arith, Bool-cases, Option-cases, All, eqb, &&-eq-true, eq_iff,
}
use django_ops.Kubernetes.State.{KubernetesRelease, Releases, is_active, is_succeeded, is_terminal}
use django_ops.Kubernetes.Releases.{
  ReleaseKey, is_release, is_open, first_row, update_rows, has_pk, has_active_pk, set_rows, reset,
  new_release, Opened, open_release, StartAnswer, answered, unavailable, escaped, apply_answer,
  finish_release, apply_cancel, cancel_release,
}
use django_ops.Kubernetes.Events.{Event, opens, finishes, cancels, step, run, count_open, IsValid}
use django_ops.Kubernetes.Rows.{
  KeepsKey, Below-update, count-update-le, first_row-passes, first_row_unique,
}

pub reset-KeepsKey : KeepsKey reset
unfolding is_release
reset-KeepsKey = record { pk = λ r. refl; release = λ key r. refl }

pub apply_answer-KeepsKey :
    (release : KubernetesRelease) (a : StartAnswer) → KeepsKey (apply_answer release a)
unfolding is_release apply_answer
apply_answer-KeepsKey release (answered x) = record { pk = λ r. refl; release = λ key r. refl }
apply_answer-KeepsKey release (escaped e) = record { pk = λ r. refl; release = λ key r. refl }
apply_answer-KeepsKey release unavailable = record { pk = λ r. refl; release = λ key r. refl }

pub apply_cancel-KeepsKey : (b : Bool) → KeepsKey (apply_cancel b)
unfolding is_release apply_cancel
apply_cancel-KeepsKey true = record { pk = λ r. refl; release = λ key r. refl }
apply_cancel-KeepsKey false = record { pk = λ r. refl; release = λ key r. refl }

-- An update of open rows keeps the table valid.
update-IsValid :
    (t : Releases) (p : KubernetesRelease → Bool) {f : KubernetesRelease → KubernetesRelease}
    → KeepsKey f
    → All (λ r. p r ≡ true → is_open r ≡ true) t.rows
    → IsValid t
    → IsValid (set_rows t (update_rows p f t.rows))
update-IsValid t p keeps a v = record {
  distinct = Below-update p keeps t.next_pk t.rows v.distinct;
  single = λ key. omega (arith, v.single key, count-update-le p keeps key t.rows a);
}

active_open :
    (pk : ℕ) (rows : List KubernetesRelease)
    → All (λ r. has_active_pk pk r ≡ true → is_open r ≡ true) rows
unfolding is_open
active_open pk [] = tt
active_open pk (r ∷ rs) = ((λ h. ground arith), active_open pk rs)

found_open :
    (e : KubernetesRelease) (rows : List KubernetesRelease)
    → is_open e ≡ true
    → All (λ r. has_pk e.pk r ≡ true → r ≡ e) rows
    → All (λ r. has_pk e.pk r ≡ true → is_open r ≡ true) rows
found_open e [] o a = tt
found_open e (r ∷ rs) o a =
    ((λ h. subst (λ x. is_open x ≡ true) (sym (a.0 h)) o), found_open e rs o a.1)

count-none :
    (key : ReleaseKey) (rows : List KubernetesRelease)
    → first_row (λ r. is_release key r && is_open r) rows ≡ none
    → count_open key rows ≡ 0
unfolding first_row count_open
count-none key [] h = refl
count-none key (r ∷ rs) h = ground (arith, count-none key rs)

-- The two keys are those of one release.
new_release-key :
    (key other : ReleaseKey) (pk p : ℕ) (op c : String) (previous : Option KubernetesRelease)
    → is_release other (new_release pk key p op c previous) ≡ true
    → other ≡ key
unfolding is_release new_release
new_release-key key other pk p op c previous h = ground (
  arith,
  eq_iff key.image other.image,
  eq_iff key.chart_version other.chart_version,
  eq_iff key.values_digest other.values_digest,
)

module _ (t : Releases) (key : ReleaseKey) (p : ℕ) (op c : String) where
  -- The release's open row, or none
  abbrev pub found : Option KubernetesRelease
  found = first_row (λ r. is_release key r && is_open r) t.rows

  abbrev pub created : KubernetesRelease
  created =
      new_release t.next_pk key p op c
        (first_row (λ r. eqb r.target_id key.target_id && is_succeeded r.status) t.rows)

  abbrev pub with_created : Releases
  with_created = record { rows = created ∷ t.rows; next_pk = t.next_pk + 1 }

  pub created-pk : created.pk ≡ t.next_pk
  unfolding new_release
  created-pk = refl

  pub open_release_cases {κ} :
      (P : Opened → Type κ)
      → ((e : KubernetesRelease)
          → found ≡ some e
          → is_active e.status ≡ true
          → P (record { table = t; release = e; dispatch = false }))
      → ((e : KubernetesRelease)
          → found ≡ some e
          → is_active e.status ≡ false
          → P (record {
            table = set_rows t (update_rows (has_pk e.pk) reset t.rows);
            release = reset e;
            dispatch = true;
          }))
      → (found ≡ none → P (record { table = with_created; release = created; dispatch = true }))
      → P (open_release t key p op c)
  unfolding open_release
  open_release_cases P running stopped new = elim (Option-cases found) [
    | inl e ↦ rw (e, open_release) (new e)
    | inr (r, e) ↦ elim (Bool-cases (is_active r.status)) [
      | inl a ↦ rw (e, a, open_release) (running r e a)
      | inr a ↦ rw (e, a, open_release) (stopped r e a)
    ]
  ]

  pub found-open : (e : KubernetesRelease) → found ≡ some e → is_open e ≡ true
  found-open e h =
      (&&-eq-true (is_release key e) (is_open e)
        (first_row-passes (λ r. is_release key r && is_open r) t.rows h)).1

  created-IsValid : found ≡ none → IsValid t → IsValid with_created
  unfolding count_open new_release
  created-IsValid e v = record {
    distinct = (ground arith, v.distinct);
    single = λ other. elim (Bool-cases (is_release other created && is_open created)) [
      | inl h ↦
          let same =
            new_release-key key other t.next_pk p op c _
              (&&-eq-true (is_release other created) (is_open created) h).0 in
          let empty = count-none key t.rows e in
          subst (λ (k : ReleaseKey). count_open k (created ∷ t.rows) ≤ 1) (sym same)
            (ground (arith, empty))
      | inr h ↦ ground (arith, h, v.single other)
    ];
  }

  open_release-IsValid : IsValid t → IsValid (open_release t key p op c).table
  open_release-IsValid v =
      open_release_cases (λ (o : Opened). IsValid o.table) (λ e h a. v)
        (λ e h a.
          update-IsValid t (has_pk e.pk) reset-KeepsKey
            (found_open e t.rows (found-open e h)
              (first_row_unique _ t.next_pk t.rows h v.distinct))
            v)
        (λ e. created-IsValid e v)

pub step-IsValid : (t : Releases) (e : Event) → IsValid t → IsValid (step t e)
unfolding step finish_release cancel_release
step-IsValid t (opens key p op c) v = open_release-IsValid t key p op c v
step-IsValid t (finishes release a) v =
    update-IsValid t (has_active_pk release.pk) (apply_answer-KeepsKey release a)
      (active_open release.pk t.rows) v
step-IsValid t (cancels seen accepted) v = elim (Bool-cases (is_terminal seen.status)) [
  | inl e ↦ rw e v
  | inr e ↦ rw e (
      update-IsValid t (has_active_pk seen.pk) (apply_cancel-KeepsKey accepted)
        (active_open seen.pk t.rows) v)
]

-- Through every interleaving of the transactions of start_release, its updates after the backend's
-- answer, with whatever row it had in memory, and cancellations, a table whose rows have different
-- keys below the next one and which has at most one open row (active, or failed and recoverable) for
-- each combination of target, image, chart version and values digest stays so.
pub releases-IsValid : (es : List Event) (t : Releases) → IsValid t → IsValid (run t es)
unfolding run
releases-IsValid [] t v = v
releases-IsValid (e ∷ es) t v = releases-IsValid es (step t e) (step-IsValid t e v)
