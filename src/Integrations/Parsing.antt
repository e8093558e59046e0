-- ===== src/Integrations/Parsing.antt =====
-- What `parse_integrations` (cli/djangoops/integrations.py) accepts.
use django_ops.Common.{
  ◌≤◌, ◌≡◌, refl, subst, Bool, true, false, not, List, [], ◌∷◌, String, ◌==◌, length, all, member,
  map, All, arith, ltb, Bool-cases, ok, bind_ok, check_ok, ok_inj, eq_iff, eq_refl, inl, inr,
}
use django_ops.Config.Validators.{SplitUrl}
use django_ops.Integrations.Contract.{
  invalid_config, limit_exceeded, schema_drift, duplicate_integration, unsupported_capability,
  max_integrations, IntegrationDefinition, IntegrationConfig, resolve, builtin_registry, Value,
  nothing, other, boolean, text, list, mapping, items,
}
use django_ops.Integrations.Parser.{
  read_string, read_boolean, read_list, read_mapping, read_strings, get, has_contract_keys,
  is_distinct, validate_config, parse_integration, parse_all, parse_integrations,
}
use django_ops.Integrations.Settings.{Configured, validate_config-Configured}

-- An integration of the registry, with capabilities that it has, each once, and its settings in order.
pub record IsAllowed (urlsplit : String → SplitUrl) (c : IntegrationConfig) : Type 0 where
  pub definition : IntegrationDefinition
  pub resolved : resolve builtin_registry c.name c.version ≡ ok definition
  pub capable : all (λ x. member x definition.capabilities) c.capabilities ≡ true
  pub distinct : is_distinct c.capabilities ≡ true
  pub configured : Configured urlsplit c.name c.config

true_of_not : (b : Bool) → not b ≡ false → b ≡ true
true_of_not b h = ground arith

parse_integration-IsAllowed :
    (urlsplit : String → SplitUrl) (seen : List String) (value : Value) (c : IntegrationConfig)
    → parse_integration urlsplit seen value ≡ ok c
    → IsAllowed urlsplit c × (member c.name seen ≡ false)
unfolding parse_integration
parse_integration-IsAllowed urlsplit seen value c h =
    let (raw, _, h1) = bind_ok (read_mapping value) h in
    let (_, h2) = check_ok (not (has_contract_keys raw)) schema_drift h1 in
    let (name, _, h3) = bind_ok (read_string (get "name" raw)) h2 in
    let (version, _, h4) = bind_ok (read_string (get "version" raw)) h3 in
    let (enabled, _, h5) = bind_ok (read_boolean (get "enabled" raw)) h4 in
    let (fresh, h6) = check_ok (member name seen) duplicate_integration h5 in
    let (definition, known, h7) = bind_ok (resolve builtin_registry name version) h6 in
    let (listed, _, h8) = bind_ok (read_list (get "capabilities" raw)) h7 in
    let (capabilities, _, h9) = bind_ok (read_strings listed) h8 in
    let (distinct, h10) = check_ok (not (is_distinct capabilities)) invalid_config h9 in
    let (capable, h11) =
      check_ok (not (all (λ x. member x definition.capabilities) capabilities))
        unsupported_capability h10 in
    let (config, valid, h12) =
      bind_ok (validate_config urlsplit definition (get "config" raw)) h11 in
    subst (λ (x : IntegrationConfig). IsAllowed urlsplit x × (member x.name seen ≡ false))
      (ok_inj h12)
      (
        record {
          definition = definition;
          resolved = known;
          capable = true_of_not (all (λ x. member x definition.capabilities) capabilities) capable;
          distinct = true_of_not (is_distinct capabilities) distinct;
          configured =
              validate_config-Configured urlsplit name version definition (get "config" raw) config
                known valid;
        },
        fresh,
      )

abbrev pub names : List IntegrationConfig → List String
names = map (λ c. c.name)

-- The names differ from each other and from those seen before.
abbrev NewNames : List String → List IntegrationConfig → Type 0
NewNames seen [] = Unit
NewNames seen (c ∷ cs) = (member c.name seen ≡ false) × NewNames (c.name ∷ seen) cs

parse_all-IsAllowed :
    (urlsplit : String → SplitUrl) (seen : List String) (values : List Value)
    (cs : List IntegrationConfig)
    → parse_all urlsplit seen values ≡ ok cs
    → All (IsAllowed urlsplit) cs × NewNames seen cs × (length cs ≡ length values)
unfolding parse_all
parse_all-IsAllowed urlsplit seen [] cs h =
    subst
      (λ (xs : List IntegrationConfig).
        All (IsAllowed urlsplit) xs × NewNames seen xs × (length xs ≡ 0))
      (ok_inj h) (tt, tt, refl)
parse_all-IsAllowed urlsplit seen (v ∷ vs) cs h =
    let (c, one, h1) = bind_ok (parse_integration urlsplit seen v) h in
    let (rest, more, h2) = bind_ok (parse_all urlsplit (c.name ∷ seen) vs) h1 in
    let first = parse_integration-IsAllowed urlsplit seen v c one in
    let others = parse_all-IsAllowed urlsplit (c.name ∷ seen) vs rest more in
    subst
      (λ (xs : List IntegrationConfig).
        All (IsAllowed urlsplit) xs × NewNames seen xs × (length xs ≡ length (v ∷ vs)))
      (ok_inj h2) ((first.0, others.0), (first.1, others.1), omega (arith, others.2))

seen-absent :
    (name : String) (seen : List String) (cs : List IntegrationConfig)
    → member name seen ≡ true
    → NewNames seen cs
    → member name (names cs) ≡ false
seen-absent name seen [] m new = refl
seen-absent name seen (c ∷ cs) m new =
    let rest = seen-absent name (c.name ∷ seen) cs (rw m (ground arith)) new.1 in
    elim (Bool-cases (c.name == name)) [
      | inl e ↦
          let same : c.name ≡ name = (eq_iff c.name name).0 e in
          absurd (cc (subst (λ x. member x seen ≡ false) same new.0))
      | inr e ↦ rw (e, rest) refl
    ]

new-distinct :
    (seen : List String) (cs : List IntegrationConfig)
    → NewNames seen cs
    → is_distinct (names cs) ≡ true
unfolding is_distinct
new-distinct seen [] new = refl
new-distinct seen (c ∷ cs) new =
    let absent = seen-absent c.name (c.name ∷ seen) cs (rw (eq_refl c.name) refl) new.1 in
    rw (absent, new-distinct (c.name ∷ seen) cs new.1) refl

-- Accepted integrations are at most eight, of different names, and each is one that the registry knows in its
-- version, with capabilities that it has, each once, and settings that are complete and well formed.
pub parse_integrations-IsAllowed :
    (urlsplit : String → SplitUrl) (value : Value) (cs : List IntegrationConfig)
    → parse_integrations urlsplit value ≡ ok cs
    → (length cs ≤ max_integrations) × (is_distinct (names cs) ≡ true) × All (IsAllowed urlsplit) cs
unfolding parse_integrations is_distinct
parse_integrations-IsAllowed urlsplit nothing cs h =
    subst
      (λ (xs : List IntegrationConfig).
        (length xs ≤ max_integrations)
        × (is_distinct (names xs) ≡ true)
        × All (IsAllowed urlsplit) xs)
      (ok_inj h) (omega arith, refl, tt)
parse_integrations-IsAllowed urlsplit other cs h = cc
parse_integrations-IsAllowed urlsplit (boolean b) cs h = cc
parse_integrations-IsAllowed urlsplit (text s) cs h = cc
parse_integrations-IsAllowed urlsplit (mapping d) cs h = cc
parse_integrations-IsAllowed urlsplit (list vs) cs h =
    let (short, h1) = check_ok (ltb max_integrations (length (items vs))) limit_exceeded h in
    let (allowed, new, len) = parse_all-IsAllowed urlsplit [] (items vs) cs h1 in
    (ground (arith, short, len), new-distinct [] cs new, allowed)
