-- ===== src/Pool/Tests.antt =====
-- A rebuild after the key of one of two providers has changed.
use garis.Base.{
  ℕ, String, Bool, true, false, ap, sym, Option, none, some, List, [], ◌∷◌, ◌≡◌, refl,
  if◌then◌else◌,
}
use garis.Dict
use garis.Dict.{Dict}
use garis.Health.{HealthMonitor, not_checked}
use garis.Router.{Provider}
use garis.Vault.{Vault}
use garis.Pool.{ProviderConfig, ProviderPool, signatures_from, rebuild}
use garis.Pool.Signatures.{Settings, settings_of, same_settings, same_provider}
use garis.Vault.Shelf.{Shelf}
use garis.Pool.Rebuild.{known_in, known-rebuild}

abbrev same_text : String → String
same_text s = s

abbrev seal : ℕ → String → String → String
seal n t c = t

abbrev unseal : ℕ → String → String → Option String
unseal n t c = some t

abbrev digest : Bool → String → String → String
digest enabled url key = key

opens : (n : ℕ) (t c : String) → unseal n (seal n t c) c ≡ some t
opens n t c = refl

abbrev build : List (String × ProviderConfig) → List Provider
build configured = []

abbrev with_key : String → ProviderConfig
with_key key = record { enabled = true; key_ref = key; base_url = "" }

abbrev monitor : HealthMonitor
monitor = record {
  ttl = 3600;
  states = ("openai", not_checked "openai") ∷ ("gemini", not_checked "gemini") ∷ [];
  events = [];
}

abbrev pool : ProviderPool
pool = record {
  router = record {
    providers = [];
    config = record { privacy = "balanced"; allow_cloud = true; monthly_budget = 0 };
    health = some monitor;
    input_tokens = 0;
    output_tokens = 0;
    spend = 0;
    fallbacks = [];
  };
  signatures = ("openai", "k1") ∷ ("gemini", "g1") ∷ [];
}

abbrev configured : List (String × ProviderConfig)
configured = ("openai", with_key "k2") ∷ ("gemini", with_key "g1") ∷ []

abbrev no_vault : Option (Vault String)
no_vault = none

abbrev signatures : Dict String
signatures = ("openai", "k2") ∷ ("gemini", "g1") ∷ []

abbrev before : List (String × ProviderConfig)
before = ("openai", with_key "k1") ∷ ("gemini", with_key "g1") ∷ []

abbrev no_stock : Option Shelf
no_stock = none

-- the digest of these settings is their key
key_tells :
    (x y : Settings)
    → settings_of same_text same_text no_stock "gemini" before ≡ some x
    → settings_of same_text same_text no_stock "gemini" configured ≡ some y
    → digest x.enabled x.base_url x.key ≡ digest y.enabled y.base_url y.key
    → same_settings x y ≡ true
unfolding settings_of
key_tells x y e f h = ap same_some (sym (merge e f))
  where
    same_some : Option Settings × Option Settings → Bool
    same_some (some a, some b) = same_settings a b
    same_some _ = false

    merge :
        some (record { enabled = true; base_url = ""; key = "g1" }) ≡ some x
        → some (record { enabled = true; base_url = ""; key = "g1" }) ≡ some y
        → ◌≡◌ {A = Option Settings × Option Settings}
            (
              some (record { enabled = true; base_url = ""; key = "g1" }),
              some (record { enabled = true; base_url = ""; key = "g1" }),
            )
            (some x, some y)
    merge e f = cc

known-rebuild_example :
    known_in
      (rebuild same_text seal unseal digest same_text build configured 5 pool
        no_vault).0.router.health
      "gemini"
    ≡ (if same_provider
          (settings_of same_text same_text no_stock "gemini" before)
          (settings_of same_text same_text no_stock "gemini" configured)
        then Dict.get monitor.states "gemini"
        else none)
unfolding signatures_from Dict.put
known-rebuild_example =
    known-rebuild same_text seal unseal digest same_text build opens before configured 4 5 pool
      no_vault no_vault no_stock no_stock monitor signatures "gemini" tt tt refl refl refl key_tells

openai_forgotten :
    known_in
      (rebuild same_text seal unseal digest same_text build configured 5 pool
        no_vault).0.router.health
      "openai"
    ≡ none
unfolding rebuild Dict.get Dict.pop
openai_forgotten = refl
