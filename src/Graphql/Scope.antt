-- ===== src/Graphql/Scope.antt =====
-- What a query of controlplane/graphql/schema.py may return: rows of the user's own projects.
use django_ops.Common.{
  ℕ, zero, suc, ◌≡◌, subst, inl, inr, Bool, true, ◌&&◌, List, [], ◌∷◌, String, arith, eqb, any,
  keep, take, map, All, Result, ok, ◌>>=◌, Bool-cases,
}
use django_ops.Diagnostics.State.{Operation}
use django_ops.Graphql.Site.{
  Project, Site, Environment, ResolverError, is_member, sees, sees_among, get_project,
  get_operation,
}
use django_ops.Graphql.Queries.{
  Query, all_projects, agents_of, targets_of, operations_of, releases_of, operation_with, First,
  page_size, projects, agents, operations, targets, releases, Row, project_row, agent_row,
  operation_row, target_row, release_row, project_of, resolve_query,
}
use django_ops.Graphql.Lookups.{
  get_project-sees, get_operation-sees, Yields, bind-Yields, always-Yields, ok-Yields,
}

-- What holds of every row that passes the test.
pub keep-All {ℓ κ} :
    {A : Type ℓ} {P : A → Type κ} (p : A → Bool) (xs : List A)
    → ((x : A) → p x ≡ true → P x)
    → All P (keep p xs)
keep-All p [] h = tt
keep-All p (x ∷ xs) h = elim (Bool-cases (p x)) [
  | inl e ↦ rw e (h x e, keep-All p xs h)
  | inr e ↦ rw e (keep-All p xs h)
]

take-All {ℓ κ} : {A : Type ℓ} (P : A → Type κ) (n : ℕ) (xs : List A) → All P xs → All P (take n xs)
take-All P zero xs a = tt
take-All P (suc n) [] a = tt
take-All P (suc n) (x ∷ xs) a = (a.0, take-All P n xs a.1)

map-All {ℓ κ} :
    {A : Type ℓ} {B : Type ℓ} (P : B → Type κ) (f : A → B) (xs : List A)
    → All (λ x. P (f x)) xs
    → All P (map f xs)
map-All P f [] a = tt
map-All P f (x ∷ xs) a = (a.0, map-All P f xs a.1)

-- The row belongs to a project that has the user as a member.
abbrev pub IsVisible : Site → ℕ → Row → Type 0
IsVisible s user row = sees s user (project_of row) ≡ true

imp-All {ℓ κ} :
    {A : Type ℓ} (P Q : A → Type κ) (xs : List A) → ((x : A) → P x → Q x) → All P xs → All Q xs
imp-All P Q [] h a = tt
imp-All P Q (x ∷ xs) h a = (h x a.0, imp-All P Q xs h a.1)

SeesIn : ℕ → List Project → Project → Type 0
SeesIn user ps p = any (λ q. eqb q.pk p.pk && is_member user q) ps ≡ true

projects-IsVisible :
    (user : ℕ) (ps : List Project) → All (SeesIn user ps) (keep (is_member user) ps)
unfolding SeesIn
projects-IsVisible user [] = tt
projects-IsVisible user (x ∷ xs) =
    let rest =
      imp-All (SeesIn user xs) (SeesIn user (x ∷ xs)) (keep (is_member user) xs)
        (λ p h. rw h (ground arith)) (projects-IsVisible user xs) in
    elim (Bool-cases (is_member user x)) [
      | inl e ↦ rw e (rw e (ground arith), rest)
      | inr e ↦ rw e rest
    ]

module _ (s : Site) (user : ℕ) where
  abbrev IsSeen : ℕ → Type 0
  IsSeen pk = sees s user pk ≡ true

  -- Rows of a project that the user sees.
  project_rows-IsSeen :
      {A : Type 0} (of : A → ℕ) (pk : ℕ) (xs : List A)
      → IsSeen pk
      → All (λ x. IsSeen (of x)) (keep (λ x. eqb (of x) pk) xs)
  project_rows-IsSeen of pk xs h =
      keep-All (λ x. eqb (of x) pk) xs (λ x e. subst IsSeen (ground arith) h)

  module _ (env : Environment) (id : String) where
    get_project-Yields : Yields (λ (p : Project). IsSeen p.pk) (get_project env s user id)
    get_project-Yields =
        always-Yields (λ (p : Project). IsSeen p.pk) (get_project env s user id)
          (get_project-sees env s user id)

    -- The rows of the project with the identifier, and a page of them.
    whole-Yields :
        {A : Type 0} (of : A → ℕ) (xs : List A)
        → Yields
            (All (λ x. IsSeen (of x)))
            (get_project env s user id >>= λ p. ok (keep (λ x. eqb (of x) p.pk) xs))
    whole-Yields of xs =
        bind-Yields (λ (p : Project). IsSeen p.pk) (All (λ x. IsSeen (of x)))
          (get_project env s user id) (λ p. ok (keep (λ x. eqb (of x) p.pk) xs)) get_project-Yields
          (λ p h. project_rows-IsSeen of p.pk xs h)

    page-Yields :
        {A : Type 0} (of : A → ℕ) (xs : List A) (first : First)
        → Yields (All (λ x. IsSeen (of x))) (
            get_project env s user id >>= λ p.
            page_size first >>= λ n. ok (take n (keep (λ x. eqb (of x) p.pk) xs)))
    page-Yields of xs first =
        bind-Yields (λ (p : Project). IsSeen p.pk) (All (λ x. IsSeen (of x)))
          (get_project env s user id)
          (λ p. page_size first >>= λ n. ok (take n (keep (λ x. eqb (of x) p.pk) xs)))
          get_project-Yields
          (λ p h.
            bind-Yields (λ _. Unit {0}) (All (λ x. IsSeen (of x))) (page_size first)
              (λ n. ok (take n (keep (λ x. eqb (of x) p.pk) xs)))
              (always-Yields (λ _. Unit {0}) (page_size first) (λ _ _. tt))
              (λ n _.
                take-All (λ x. IsSeen (of x)) n (keep (λ x. eqb (of x) p.pk) xs)
                  (project_rows-IsSeen of p.pk xs h)))

  rows-Yields :
      {A : Type 0} (f : A → Row) (r : Result ResolverError (List A))
      → Yields (All (λ x. IsVisible s user (f x))) r
      → Yields (All (IsVisible s user)) (r >>= λ xs. ok (map f xs))
  rows-Yields f r y =
      bind-Yields (All (λ x. IsVisible s user (f x))) (All (IsVisible s user)) r
        (λ xs. ok (map f xs)) y (λ xs h. map-All (IsVisible s user) f xs h)

  resolve_query-Yields :
      (env : Environment) (q : Query) → Yields (All (IsVisible s user)) (resolve_query env s user q)
  unfolding resolve_query projects agents targets operations releases sees_among SeesIn project_of
  resolve_query-Yields env all_projects =
      map-All (IsVisible s user) project_row (projects s user) (projects-IsVisible user s.projects)
  resolve_query-Yields env (agents_of id) =
      rows-Yields agent_row (agents env s user id)
        (whole-Yields env id (λ a. a.agent.project_id) s.agents)
  resolve_query-Yields env (targets_of id) =
      rows-Yields target_row (targets env s user id)
        (whole-Yields env id (λ r. r.project_id) s.targets.rows)
  resolve_query-Yields env (operations_of id first) =
      rows-Yields operation_row (operations env s user id first)
        (page-Yields env id (λ r. r.project_id) s.operations.rows first)
  resolve_query-Yields env (releases_of id first) =
      rows-Yields release_row (releases env s user id first)
        (page-Yields env id (λ r. r.project_id) s.releases.rows first)
  resolve_query-Yields env (operation_with id) =
      bind-Yields (λ (r : Operation). IsSeen r.project_id) (All (IsVisible s user))
        (get_operation env s user id) (λ r. ok (operation_row r ∷ []))
        (always-Yields (λ (r : Operation). IsSeen r.project_id) (get_operation env s user id)
          (get_operation-sees env s user id))
        (λ r h. (h, tt))

-- A query returns rows only of projects that have the user as a member.
pub resolve_query-IsVisible :
    (env : Environment) (s : Site) (user : ℕ) (q : Query) {rows : List Row}
    → resolve_query env s user q ≡ ok rows
    → All (IsVisible s user) rows
resolve_query-IsVisible env s user q h =
    ok-Yields (All (IsVisible s user)) (resolve_query env s user q)
      (resolve_query-Yields s user env q) h
