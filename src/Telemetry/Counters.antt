-- ===== src/Telemetry/Counters.antt =====
-- `collections.Counter` as controlplane/telemetry.py uses it: a missing key counts zero.
use django_ops.Common.{
  ℕ, ◌+◌, ◌≡◌, Bool, List, [], ◌∷◌, arith, if◌then◌else◌, Bool-cases, inl, inr, All,
}

module _ {ℓ} {K : Type ℓ} (same : K → K → Bool) where
  -- `counter[k]`
  unfoldable pub value_at : K → List (K × ℕ) → ℕ
  value_at k [] = 0
  value_at k ((j, n) ∷ rest) = if same j k then n else value_at k rest

  -- `counter[k] = n`
  unfoldable pub set_at : K → ℕ → List (K × ℕ) → List (K × ℕ)
  set_at k n [] = (k, n) ∷ []
  set_at k n ((j, m) ∷ rest) = if same j k then (j, n) ∷ rest else (j, m) ∷ set_at k n rest

  -- `counter[k] += n`
  unfoldable pub add_at : K → ℕ → List (K × ℕ) → List (K × ℕ)
  add_at k n counter = set_at k (value_at k counter + n) counter

  -- the sum of all values
  unfoldable pub total : List (K × ℕ) → ℕ
  total [] = 0
  total ((j, n) ∷ rest) = n + total rest

  pub total-add_at :
      (k : K) (n : ℕ) (counter : List (K × ℕ)) → total (add_at k n counter) ≡ total counter + n
  unfolding value_at set_at add_at total
  total-add_at k n [] = omega arith
  total-add_at k n ((j, m) ∷ rest) = ground (arith, total-add_at k n rest)

  pub All-set_at {κ} :
      (P : K → Type κ) (k : K) (n : ℕ) (counter : List (K × ℕ))
      → P k
      → All (λ e. P e.0) counter
      → All (λ e. P e.0) (set_at k n counter)
  unfolding set_at
  All-set_at P k n [] p a = (p, tt)
  All-set_at P k n ((j, m) ∷ rest) p a = elim (Bool-cases (same j k)) [
    | inl e ↦ rw e a
    | inr e ↦ rw e (a.0, All-set_at P k n rest p a.1)
  ]
