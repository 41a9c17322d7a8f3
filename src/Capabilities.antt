-- ===== src/Capabilities.antt =====
-- Capabilities and the one way to run one: core/src/garis/capabilities/base.py and registry.py.
-- `W` is the world that executors and verifiers act on. What `int`, `float`, `bool` and `str` make of a
-- value is the parameter `convert`, none where they raise; `platform` is `sys.platform`. The sentences
-- for the user are not modelled, nor the rendering of results.
pub mod Effects
pub mod Evidence
pub mod Arguments
mod Tests
use garis.Base.{
  ℕ, nat_eq, String, Bool, true, false, Option, none, some, List, [], ◌∷◌, ◌++◌, ◌==◌, ◌&&◌, ◌||◌,
  not, any, contains, is_some, if◌then◌else◌,
}
use garis.Dict
use garis.Dict.{Dict}
use garis.Actions.{Value, text, items, fields, other}

pub data Risk : Type 0 where
  read reversible disruptive irreversible : Risk

pub data Permission : Type 0 where
  no_permission system_read audio desktop process files network : Permission

pub record Field : Type 0 where
  pub name : String
  pub kind : String
  pub required : Bool
  pub check : Option (Value → Bool)

pub record Outcome : Type 0 where
  pub ok : Bool
  pub value : Option Value
  pub evidence : Dict Value
  pub uncertain : Bool

pub record Verdict : Type 0 where
  pub ok : Bool
  pub checked : Bool
  pub missing : List String

-- `Verdict.unchecked`
abbrev pub unchecked_verdict : Verdict
unchecked_verdict = record { ok = false; checked = false; missing = [] }

abbrev pub refusal : Verdict
refusal = record { ok = false; checked = true; missing = [] }

pub record Invocation : Type 0 where
  pub capability : String
  pub args : Dict Value
  pub effect_id : String

-- how an executor ends: with an outcome, or with an exception
pub data Execution : Type 0 where
  finished : Outcome → Execution
  crashed : Execution

pub record Capability (W : Type 0) : Type 0 where
  pub id : String
  pub version : ℕ
  pub risk : Risk
  pub permission : Permission
  pub executor : W → Invocation → Execution × W
  pub verifier : W → Invocation → Outcome → Verdict × W
  pub inputs : List Field
  pub evidence : List Field
  pub platforms : List String

pub record Performed : Type 0 where
  pub capability : String
  pub version : ℕ
  pub outcome : Outcome
  pub verdict : Verdict
  pub effect_id : String

unfoldable pub is_verified : Performed → Bool
is_verified p = p.verdict.ok && p.verdict.checked

pub record Registry (W : Type 0) : Type 0 where
  pub by_id : Dict (Capability W)
  pub performed : Dict Performed

pub data Result : Type 0 where
  -- `Unsupported`
  unknown : Result
  is_performed : Performed → Result

-- `_coerce`
abbrev as_list : Value → Option Value
as_list (items vs) = some (items vs)
as_list _ = none

abbrev as_dict : Value → Option Value
as_dict (fields fs) = some (fields fs)
as_dict _ = none

abbrev is_builtin : String → Bool
is_builtin kind = kind == "int" || (kind == "float" || (kind == "bool" || kind == "str"))

module _ (convert : String → Value → Option Value) where
  abbrev pub coerce : String → Value → Option Value
  coerce kind v =
      if kind == "list"
      then as_list v
      else if kind == "dict"
      then as_dict v
      else if is_builtin kind
      then convert kind v
      else some v

  abbrev pub put_coerced : String → Option Value → Option (Dict Value) → Option (Dict Value)
  put_coerced name none rest = none
  put_coerced name (some v) none = none
  put_coerced name (some v) (some out) = some ((name, v) ∷ out)

  abbrev pub validate_field : Field → Option Value → Option (Dict Value) → Option (Dict Value)
  validate_field spec none rest = if spec.required then none else rest
  validate_field spec (some v) rest = put_coerced spec.name (coerce spec.kind v) rest

  -- `validate`, none for its `ValueError`; the names of the inputs are distinct
  unfoldable pub validate : List Field → Dict Value → Option (Dict Value)
  unfolding Dict.get
  validate [] args = some []
  validate (spec ∷ specs) args =
      let rest = validate specs args in validate_field spec (Dict.get args spec.name) rest

abbrev fails : Option (Value → Bool) → Value → Bool
fails none v = false
fails (some check) v = not (check v)

abbrev pub is_gap : Field → Option Value → Bool
is_gap spec none = spec.required
is_gap spec (some v) = fails spec.check v

-- `missing_evidence`
unfoldable pub missing_evidence : List Field → Dict Value → List String
missing_evidence [] evidence = []
missing_evidence (spec ∷ specs) evidence =
    let rest = missing_evidence specs evidence in
    if is_gap spec (Dict.get evidence spec.name) then spec.name ∷ rest else rest

abbrev pub gaps_verdict : List String → Verdict
gaps_verdict [] = record { ok = true; checked = true; missing = [] }
gaps_verdict (g ∷ gs) = record { ok = false; checked = true; missing = g ∷ gs }

abbrev pub declared_verdict : List Field → Outcome → Verdict
declared_verdict [] outcome = unchecked_verdict
declared_verdict (spec ∷ specs) outcome =
    if outcome.ok then gaps_verdict (missing_evidence (spec ∷ specs) outcome.evidence) else refusal

-- `evidence_verifier`, for a capability that declares these fields
unfoldable pub evidence_verdict : List Field → Outcome → Verdict
unfolding missing_evidence
evidence_verdict declared outcome = declared_verdict declared outcome

abbrev is_read : Risk → Bool
is_read read = true
is_read _ = false

abbrev failed_outcome : Bool → Outcome
failed_outcome uncertain = record { ok = false; value = none; evidence = []; uncertain = uncertain }

-- an exception of an executor is an outcome
abbrev pub outcome_of : Risk → Execution → Outcome
outcome_of risk (finished outcome) = outcome
outcome_of risk crashed = failed_outcome (not (is_read risk))

module _ {W : Type 0} (convert : String → Value → Option Value) (platform : String) where
  abbrev pub supported_here : Capability W → Bool
  supported_here c = contains platform c.platforms

  -- `add`, none for the `ValueError`
  abbrev other_version : Option (Capability W) → Capability W → Bool
  other_version none c = false
  other_version (some old) c = not (nat_eq old.version c.version)

  unfoldable pub add : Capability W → Registry W → Option (Registry W)
  add c reg =
      if other_version (Dict.get reg.by_id c.id) c
      then none
      else some (record reg { by_id = Dict.put reg.by_id c.id c })

  abbrev pub performed_as : Capability W → Outcome → Verdict → String → Performed
  performed_as c outcome verdict effect_id = record {
    capability = c.id;
    version = c.version;
    outcome = outcome;
    verdict = verdict;
    effect_id = effect_id;
  }

  -- the result is kept under its effect id
  abbrev pub keep_effect : Performed → Registry W → Registry W
  keep_effect p reg =
      if not (p.effect_id == "") && p.outcome.ok
      then record reg { performed = Dict.put reg.performed p.effect_id p }
      else reg

  abbrev pub judged :
      Capability W → Invocation → Registry W → Outcome × W → Result × (Registry W × W)
  judged c call reg (outcome, w) =
      let v = c.verifier w call outcome in
      let p = performed_as c outcome v.0 call.effect_id in
      (is_performed p, (keep_effect p reg, v.1))

  abbrev pub executed :
      Capability W → Invocation → Registry W → Execution × W → Result × (Registry W × W)
  executed c call reg (e, w) = judged c call reg (outcome_of c.risk e, w)

  abbrev pub invoked :
      Capability W → String → Option (Dict Value) → Registry W → W → Result × (Registry W × W)
  invoked c effect_id none reg w =
      (is_performed (performed_as c (failed_outcome false) refusal effect_id), (reg, w))
  invoked c effect_id (some args) reg w =
      let call : Invocation = record { capability = c.id; args = args; effect_id = effect_id } in
      executed c call reg (c.executor w call)

  -- `effect_id and effect_id in self._performed`
  abbrev pub recorded : String → Registry W → Option Performed
  recorded effect_id reg = if effect_id == "" then none else Dict.get reg.performed effect_id

  abbrev pub unless_recorded :
      Option Performed
      → Capability W
      → Dict Value
      → String
      → Registry W
      → W
      → Result × (Registry W × W)
  unless_recorded (some p) c args effect_id reg w = (is_performed p, (reg, w))
  unless_recorded none c args effect_id reg w =
      invoked c effect_id (validate convert c.inputs args) reg w

  abbrev pub perform_known :
      Option (Capability W) → Dict Value → String → Registry W → W → Result × (Registry W × W)
  perform_known none args effect_id reg w = (unknown, (reg, w))
  perform_known (some c) args effect_id reg w =
      if supported_here c
      then unless_recorded (recorded effect_id reg) c args effect_id reg w
      else (is_performed (performed_as c (failed_outcome false) refusal effect_id), (reg, w))

  -- `perform`
  unfoldable pub perform : String → Dict Value → String → Registry W → W → Result × (Registry W × W)
  unfolding validate Dict.get Dict.put
  perform capability_id args effect_id reg w =
      perform_known (Dict.get reg.by_id capability_id) args effect_id reg w
