-- ===== src/Policy.antt =====
-- The policy: core/src/garis/runtime/policy.py.
-- A verdict has its decision and its rule; the Polish prompts and reasons are not modelled.
-- `norm` stands for `_norm` (`os.path`), `repr` for `str` of a value that is no text. Costs are in
-- hundredths.
mod Effects
pub mod Gates
pub mod Protected
mod Tests
use package.text.Mathlib.Text.{starts_with}
use Prim.Native.String.{◌++◌ as ◌<>◌}
use garis.Base.{
  ℕ, String, Bool, true, false, Option, none, some, List, [], ◌∷◌, ◌++◌, keep, any, not, ◌==◌, ◌&&◌,
  ◌||◌, ltb, leb, max, nat_eq, if◌then◌else◌,
}
use garis.Dict
use garis.Actions.{
  Effect, write, delete_permanent, exec, install, payment, publish, send_message, credentials,
  system_config, elevate, sorted_effects, effect_value, has, parse_effect, Value, text, Params,
  param_strings, Action, ToolSpec, estimates,
}

pub data Decision : Type 0 where
  allow confirm deny : Decision

pub record Verdict : Type 0 where
  pub decision : Decision
  pub rule : String

abbrev pub verdict : Decision → String → Verdict
verdict decision rule = record { decision = decision; rule = rule }

abbrev pub non_negotiable_confirm : List Effect
non_negotiable_confirm = payment ∷ publish ∷ send_message ∷ credentials ∷ delete_permanent ∷ []

pub record AutonomyConfig : Type 0 where
  pub auto_install_free_software : Bool
  pub download_notice_bytes : ℕ
  pub spend_notice_amount : ℕ
  pub allow_admin_elevation : Bool
  pub confirm_effects : List String

-- the files that hold GARIS's own controls
pub record Paths : Type 0 where
  pub key_file : String
  pub vault_db : String
  pub state_db : String

-- the names in the configuration that are effects; an unknown one is ignored
abbrev pub with_effect : Option Effect → List Effect → List Effect
with_effect none es = es
with_effect (some e) es = e ∷ es

unfoldable pub configured : List String → List Effect
configured [] = []
configured (name ∷ names) = with_effect (parse_effect name) (configured names)

-- `_confirm_effects`
unfoldable pub confirm_set : AutonomyConfig → List Effect
unfolding configured
confirm_set c = configured c.confirm_effects ++ non_negotiable_confirm

-- `sorted(self._confirm_effects() & effects)`
unfoldable pub gated : AutonomyConfig → List Effect → List Effect
gated c effects = keep (λ e. has e (confirm_set c) && has e effects) sorted_effects

unfoldable pub is_mutating : List Effect → Bool
is_mutating effects =
    has write effects
    || (has delete_permanent effects || (has exec effects || has system_config effects))

module _ (norm : String → String) (paths : Paths) where
  -- the path of one of the files that hold GARIS's own controls
  unfoldable pub is_protected : String → Bool
  is_protected value =
      norm value == norm paths.key_file
      || (norm value == norm paths.vault_db || norm value == norm paths.state_db)

module _ (norm : String → String) (repr : Value → String) (paths : Paths) where
  -- `str(action.params.get("key", ""))`
  unfoldable pub config_key : Params → String
  config_key params = elim (Dict.get params "key") [
    | none ↦ ""
    | some (text s) ↦ s
    | some v ↦ repr v
  ]

  -- `_hard_deny`: the rule of the refusal
  unfoldable pub hard_deny : ToolSpec → Action → Option String
  unfolding is_protected config_key is_mutating
  hard_deny spec action =
      if is_mutating spec.effects
        && (not (spec.category == "vault")
            && any (is_protected norm paths) (param_strings action.params))
      then some "guardrails"
      else if spec.name == "config_set"
          && (starts_with (config_key action.params) "autonomy.confirm_effects"
              || starts_with (config_key action.params) "autonomy.allow")
      then some "policy_self_edit"
      else none

-- the guards after the effects, in order
unfoldable pub notices : AutonomyConfig → ToolSpec → ℕ → ℕ → Bool → Verdict
notices c spec est_bytes est_cost reversible =
    if not spec.reversible || not reversible
    then verdict confirm "irreversible"
    else if ltb c.spend_notice_amount est_cost
    then verdict confirm "cost"
    else if ltb c.download_notice_bytes est_bytes
    then verdict confirm "download_size"
    else if has install spec.effects
        && not (
            c.auto_install_free_software
            && (spec.trusted_source && (leb est_cost 0 && spec.reversible)))
    then verdict confirm "install"
    else if has elevate spec.effects && not c.allow_admin_elevation
    then verdict confirm "elevation"
    else verdict allow "default"

-- what is decided once the hard refusals are passed
abbrev pub gates : AutonomyConfig → ToolSpec → Action → List Effect → Verdict
gates c spec action (e ∷ es) = verdict confirm ("effect:" <> effect_value e)
gates c spec action [] =
    notices c spec (max (estimates spec action.params).0 action.estimated_bytes)
      (max (estimates spec action.params).1 action.estimated_cost) action.reversible

abbrev pub denied_or : Verdict → Option String → Verdict
denied_or v (some rule) = verdict deny rule
denied_or v none = v

module _ (norm : String → String) (repr : Value → String) (paths : Paths) where
  -- `PolicyEngine.evaluate`
  unfoldable pub evaluate : AutonomyConfig → ToolSpec → Action → Verdict
  evaluate c spec action =
      denied_or (gates c spec action (gated c spec.effects)) (hard_deny norm repr paths spec action)
