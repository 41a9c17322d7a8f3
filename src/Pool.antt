-- ===== src/Pool.antt =====
-- The live set of providers: core/src/garis/models/pool.py.
-- The hash of a configuration is the parameter `digest`, `build` is `build_providers` and `resolve` is
-- `resolve_provider_name`. A configuration is a dict from names to settings, in its order. The monitor of
-- the pool is that of its router. Probes, the loops in the background and the bus are not modelled.
pub mod Signatures
pub mod Rebuild
mod Tests
use garis.Base.{
  ℕ, String, Bool, true, false, Option, none, some, List, [], ◌∷◌, ◌++◌, any, contains, ◌==◌, ◌&&◌,
  ◌||◌, not, is_some, if◌then◌else◌,
}
use text.Mathlib.Text.{starts_with}
use garis.Dict
use garis.Dict.{Dict}
use garis.Vault
use garis.Vault.{Vault, Reply, value, nothing, raised, is_ref, ref_name, get_optional}
use garis.Health.{HealthMonitor, forget}
use garis.Router.{ModelRouter, Provider, replace}

pub record ProviderConfig : Type 0 where
  pub enabled : Bool
  pub key_ref : String
  pub base_url : String

pub record ProviderPool : Type 0 where
  pub router : ModelRouter
  pub signatures : Dict String

-- what a reply of the vault is as a key: `or ""`, or an exception
abbrev pub key_in : Reply → Option String
key_in (value key) = some key
key_in (raised f) = none
key_in _ = some ""

abbrev pub names_of : {A : Type 0} → Dict A → List String
names_of [] = []
names_of ((name, x) ∷ d) = name ∷ names_of d

-- `forget` of each of these names that the test asks for
unfoldable pub forget_each : (String → Bool) → List String → HealthMonitor → HealthMonitor
unfolding forget
forget_each p [] m = m
forget_each p (name ∷ names) m = forget_each p names (if p name then forget m (some name) else m)

abbrev pub same_signature : Option String → Option String → Bool
same_signature none none = true
same_signature (some s) (some t) = s == t
same_signature _ _ = false

-- the two loops of `rebuild`
unfoldable pub forget_moved : Dict String → Dict String → HealthMonitor → HealthMonitor
unfolding forget_each
forget_moved old now m =
    forget_each (λ name. not (is_some (Dict.get now name))) (names_of old)
      (forget_each (λ name. not (same_signature (Dict.get old name) (Dict.get now name)))
        (names_of now) m)

abbrev pub forget_known : Dict String → Dict String → Option HealthMonitor → Option HealthMonitor
forget_known old now none = none
forget_known old now (some m) = some (forget_moved old now m)

module _ {C : Type 0} (tidy : String → String) (seal : ℕ → String → String → C)
    (unseal : ℕ → C → String → Option String) (digest : Bool → String → String → String)
    (resolve : String → String) where
  -- the key of a provider, which a vault is asked for
  abbrev pub key_of : String → ℕ → Option (Vault C) → Option String × Option (Vault C)
  key_of ref now none = (some ref, none)
  key_of ref now (some v) =
      if is_ref ref
      then (let r = get_optional tidy seal unseal (ref_name ref) now v in (key_in r.0, some r.1))
      else (some ref, some v)

  abbrev pub signed : String → ProviderConfig → Dict String → Option String → Option (Dict String)
  signed name settings out none = none
  signed name settings out (some key) =
      some (Dict.put out name (digest settings.enabled settings.base_url key))

  -- `_signatures_now`, none where the vault raises
  unfoldable pub signatures_from :
      List (String × ProviderConfig)
      → ℕ
      → Option (Dict String)
      → Option (Vault C)
      → Option (Dict String) × Option (Vault C)
  unfolding get_optional Dict.put
  signatures_from [] now out v = (out, v)
  signatures_from ((raw_name, settings) ∷ rest) now none v = (none, v)
  signatures_from ((raw_name, settings) ∷ rest) now (some out) v =
      let k = key_of settings.key_ref now v in
      signatures_from rest now (signed (resolve raw_name) settings out k.0) k.1

  -- `_referenced_secrets`
  unfoldable pub referenced_secrets : List (String × ProviderConfig) → List String
  referenced_secrets [] = []
  referenced_secrets ((name, settings) ∷ rest) =
      let others = referenced_secrets rest in
      if is_ref settings.key_ref then ref_name settings.key_ref ∷ others else others

  -- `_concerns_models` of a change of the vault, and of one of the configuration
  unfoldable pub concerns_secret : List (String × ProviderConfig) → String → Bool
  unfolding referenced_secrets
  concerns_secret configured name = name == "" || contains name (referenced_secrets configured)

  unfoldable pub concerns_paths : List String → Bool
  concerns_paths paths = any (λ path. starts_with path "models") paths

  module _ (build : List (String × ProviderConfig) → List Provider) where
    abbrev pub rebuilt :
        List (String × ProviderConfig) → Option (Dict String) → ProviderPool → ProviderPool
    rebuilt configured none pool = pool
    rebuilt configured (some signatures) pool = record {
      router =
          replace
            (record (pool.router) {
              health = forget_known pool.signatures signatures pool.router.health;
            })
            (build configured);
      signatures = signatures;
    }

    -- `rebuild`, as far as it does not wait
    unfoldable pub rebuild :
        List (String × ProviderConfig)
        → ℕ
        → ProviderPool
        → Option (Vault C)
        → ProviderPool × Option (Vault C)
    unfolding signatures_from forget_moved replace
    rebuild configured now pool v =
        let s = signatures_from configured now (some []) v in (rebuilt configured s.0 pool, s.1)
