-- ===== src/Graphql/Lookups.antt =====
-- The lookups of controlplane/graphql/schema.py find rows of the user's own projects only.
use django_ops.Common.{
  ℕ, ◌≡◌, ◌⊎◌, refl, subst, inl, inr, Bool, true, ◌&&◌, ◌||◌, List, [], ◌∷◌, arith, eqb, eqb_iff,
  any, All, Result, ok, err, ◌>>=◌, Bool-cases, Option-cases, String, ◌==◌, &&-eq-true,
}
use django_ops.Diagnostics.State.{Operation}
use django_ops.Kubernetes.State.{KubernetesTarget, KubernetesRelease}
use django_ops.Graphql.Site.{
  Project, AgentRegistration, Site, Environment, Number, number, no_number, negative,
  project_does_not_exist, agent_does_not_exist, operation_does_not_exist, target_does_not_exist,
  release_does_not_exist, ResolverError, get_where, is_member, sees, sees_among, get_public,
  get_project, get_agent, get_operation, get_target, get_release,
}

Number-cases : (n : Number) → (n ≡ no_number) ⊎ (n ≡ negative) ⊎ ((k : ℕ) × (n ≡ number k))
Number-cases no_number = inl refl
Number-cases negative = inr (inl refl)
Number-cases (number k) = inr (inr (k, refl))

pub get_where-passes {ℓ} :
    {A : Type ℓ} (e : ResolverError) (p : A → Bool) (rows : List A) (r : A)
    → get_where e p rows ≡ ok r
    → p r ≡ true
unfolding get_where
get_where-passes e p [] r h = cc
get_where-passes e p (x ∷ xs) r h = elim (Bool-cases (p x)) [
  | inl q ↦ ground arith
  | inr q ↦ get_where-passes e p xs r (rw q at h)
]

-- The found project is one that the user sees.
get_where-sees :
    (e : ResolverError) (user pk : ℕ) (ps : List Project) (p : Project)
    → get_where e (λ q. is_member user q && eqb q.pk pk) ps ≡ ok p
    → any (λ q. eqb q.pk p.pk && is_member user q) ps ≡ true
unfolding get_where
get_where-sees e user pk [] p h = cc
get_where-sees e user pk (x ∷ xs) p h = elim (Bool-cases (is_member user x && eqb x.pk pk)) [
  | inl q ↦
      let same : x ≡ p = ground arith in
      let both = &&-eq-true (is_member user x) (eqb x.pk pk) q in
      subst
        (λ (y : Project).
          (eqb x.pk y.pk && is_member user x || any (λ z. eqb z.pk y.pk && is_member user z) xs)
          ≡ true)
        same (rw (both.0) (ground arith))
  | inr q ↦ let found = get_where-sees e user pk xs p (rw q at h) in rw found (ground arith)
]

pub get_project-sees :
    (env : Environment) (s : Site) (user : ℕ) (id : String) (p : Project)
    → get_project env s user id ≡ ok p
    → sees s user p.pk ≡ true
unfolding get_project sees_among
get_project-sees env s user id p h = elim (Number-cases (env.int id)) [
  | inl e ↦ absurd (cc (rw (e, get_project) at h))
  | inr (inl e) ↦ absurd (cc (rw (e, get_project) at h))
  | inr (inr (pk, e)) ↦
      get_where-sees project_does_not_exist user pk s.projects p (rw (e, get_project) at h)
]

-- The agent that an identifier finds is the project's.
pub get_agent-project :
    (env : Environment) (s : Site) (p : Project) (id : String) (a : AgentRegistration)
    → get_agent env s p id ≡ ok a
    → a.agent.project_id ≡ p.pk
unfolding get_agent
get_agent-project env s p id a h = elim (Number-cases (env.int id)) [
  | inl e ↦ absurd (cc (rw (e, get_agent) at h))
  | inr (inl e) ↦ absurd (cc (rw (e, get_agent) at h))
  | inr (inr (pk, e)) ↦
      let found =
        get_where-passes agent_does_not_exist (λ x. eqb x.agent.project_id p.pk && eqb x.pk pk)
          s.agents a (rw (e, get_agent) at h) in
      (eqb_iff a.agent.project_id p.pk).0
        (&&-eq-true (eqb a.agent.project_id p.pk) (eqb a.pk pk) found).0
]

-- A row that an identifier of its own finds is visible.
get_public-visible {ℓ} :
    {A : Type ℓ} (env : Environment) (e : ResolverError) (visible : A → Bool) (uuid_of : A → String)
    (rows : List A) (id : String) (r : A)
    → get_public env e visible uuid_of rows id ≡ ok r
    → visible r ≡ true
unfolding get_public
get_public-visible env e visible uuid_of rows id r h = elim (Option-cases (env.to_uuid id)) [
  | inl q ↦ absurd (cc (rw (q, get_public) at h))
  | inr (uuid, q) ↦
      let found =
        get_where-passes e (λ x. visible x && uuid_of x == uuid) rows r (rw (q, get_public) at h) in
      (&&-eq-true (visible r) (uuid_of r == uuid) found).0
]

pub get_operation-sees :
    (env : Environment) (s : Site) (user : ℕ) (id : String) (r : Operation)
    → get_operation env s user id ≡ ok r
    → sees s user r.project_id ≡ true
unfolding get_operation
get_operation-sees env s user id r h =
    get_public-visible env operation_does_not_exist (λ x. sees s user x.project_id)
      (λ x. env.operation_uuid x.pk) s.operations.rows id r h

pub get_target-sees :
    (env : Environment) (s : Site) (user : ℕ) (id : String) (r : KubernetesTarget)
    → get_target env s user id ≡ ok r
    → sees s user r.project_id ≡ true
unfolding get_target
get_target-sees env s user id r h =
    get_public-visible env target_does_not_exist (λ x. sees s user x.project_id)
      (λ x. env.target_uuid x.pk) s.targets.rows id r h

pub get_release-sees :
    (env : Environment) (s : Site) (user : ℕ) (id : String) (r : KubernetesRelease)
    → get_release env s user id ≡ ok r
    → sees s user r.project_id ≡ true
unfolding get_release
get_release-sees env s user id r h =
    get_public-visible env release_does_not_exist (λ x. sees s user x.project_id)
      (λ x. env.release_uuid x.pk) s.releases.rows id r h

-- What holds of all rows holds of a row that is found.
get_where-All {ℓ κ} :
    {A : Type ℓ} (P : A → Type κ) (e : ResolverError) (p : A → Bool) (rows : List A) (r : A)
    → All P rows
    → get_where e p rows ≡ ok r
    → P r
unfolding get_where
get_where-All P e p [] r a h = cc
get_where-All P e p (x ∷ xs) r a h = elim (Bool-cases (p x)) [
  | inl q ↦ subst P (ground arith) a.0
  | inr q ↦ get_where-All P e p xs r a.1 (rw q at h)
]

get_public-All {ℓ κ} :
    {A : Type ℓ} (P : A → Type κ) (env : Environment) (e : ResolverError) (visible : A → Bool)
    (uuid_of : A → String) (rows : List A) (id : String) (r : A)
    → All P rows
    → get_public env e visible uuid_of rows id ≡ ok r
    → P r
unfolding get_public
get_public-All P env e visible uuid_of rows id r a h = elim (Option-cases (env.to_uuid id)) [
  | inl q ↦ absurd (cc (rw (q, get_public) at h))
  | inr (uuid, q) ↦
      get_where-All P e (λ x. visible x && uuid_of x == uuid) rows r a (rw (q, get_public) at h)
]

pub get_operation-All {κ} :
    (P : Operation → Type κ) (env : Environment) (s : Site) (user : ℕ) (id : String) (r : Operation)
    → All P s.operations.rows
    → get_operation env s user id ≡ ok r
    → P r
unfolding get_operation
get_operation-All P env s user id r a h =
    get_public-All P env operation_does_not_exist (λ x. sees s user x.project_id)
      (λ x. env.operation_uuid x.pk) s.operations.rows id r a h

pub get_target-All {κ} :
    (P : KubernetesTarget → Type κ) (env : Environment) (s : Site) (user : ℕ) (id : String)
    (r : KubernetesTarget)
    → All P s.targets.rows
    → get_target env s user id ≡ ok r
    → P r
unfolding get_target
get_target-All P env s user id r a h =
    get_public-All P env target_does_not_exist (λ x. sees s user x.project_id)
      (λ x. env.target_uuid x.pk) s.targets.rows id r a h

pub get_release-All {κ} :
    (P : KubernetesRelease → Type κ) (env : Environment) (s : Site) (user : ℕ) (id : String)
    (r : KubernetesRelease)
    → All P s.releases.rows
    → get_release env s user id ≡ ok r
    → P r
unfolding get_release
get_release-All P env s user id r a h =
    get_public-All P env release_does_not_exist (λ x. sees s user x.project_id)
      (λ x. env.release_uuid x.pk) s.releases.rows id r a h

-- What holds of the value, where the call returns one.
abbrev pub Yields {ℓ κ} : {A : Type ℓ} → (A → Type κ) → Result ResolverError A → Type κ
Yields P (err e) = Unit
Yields P (ok a) = P a

pub bind-Yields {ℓ κ μ ν} :
    {A : Type ℓ} {B : Type κ} (Q : A → Type μ) (P : B → Type ν) (r : Result ResolverError A)
    (k : A → Result ResolverError B)
    → Yields Q r
    → ((a : A) → Q a → Yields P (k a))
    → Yields P (r >>= k)
bind-Yields Q P (err e) k y h = tt
bind-Yields Q P (ok a) k y h = h a y

pub always-Yields {ℓ κ} :
    {A : Type ℓ} (P : A → Type κ) (r : Result ResolverError A)
    → ((a : A) → r ≡ ok a → P a)
    → Yields P r
always-Yields P (err e) h = tt
always-Yields P (ok a) h = h a refl

pub ok-Yields {ℓ κ} :
    {A : Type ℓ} (P : A → Type κ) (r : Result ResolverError A) {a : A} → Yields P r → r ≡ ok a → P a
ok-Yields P r y h = rw h at y
