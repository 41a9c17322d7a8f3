-- ===== src/Actions.antt =====
-- Effects, actions and tool declarations: core/src/garis/runtime/action.py and registry.py.
-- A parameter is a JSON-like `Value`; a number, a truth value or None is `other` with its text.
-- The conversions of `ParamSpec.coerce` are Python's and come as a function.
use garis.Base.{
  ℕ, String, Bool, false, Option, none, some, List, [], ◌∷◌, ◌++◌, nat_eq, any, all, not, ◌==◌,
  ◌||◌, ◌&&◌, if◌then◌else◌, is_some,
}
use garis.Dict
use garis.Dict.{Dict}

pub data Effect : Type 0 where
  read write delete_permanent exec install network payment publish send_message : Effect
  credentials system_config input_control capture elevate remote : Effect

-- all effects in the order of their texts, which is the order that `sorted` gives
abbrev pub sorted_effects : List Effect
sorted_effects =
    capture ∷ credentials ∷ delete_permanent ∷ elevate ∷ exec ∷ input_control ∷ install ∷ network
    ∷ payment ∷ publish ∷ read ∷ remote ∷ send_message ∷ system_config ∷ write ∷ []

unfoldable pub effect_value : Effect → String
effect_value read = "read"
effect_value write = "write"
effect_value delete_permanent = "delete_permanent"
effect_value exec = "exec"
effect_value install = "install"
effect_value network = "network"
effect_value payment = "payment"
effect_value publish = "publish"
effect_value send_message = "send_message"
effect_value credentials = "credentials"
effect_value system_config = "system_config"
effect_value input_control = "input_control"
effect_value capture = "capture"
effect_value elevate = "elevate"
effect_value remote = "remote"

-- the place of an effect in `sorted_effects`
unfoldable pub rank : Effect → ℕ
rank capture = 0
rank credentials = 1
rank delete_permanent = 2
rank elevate = 3
rank exec = 4
rank input_control = 5
rank install = 6
rank network = 7
rank payment = 8
rank publish = 9
rank read = 10
rank remote = 11
rank send_message = 12
rank system_config = 13
rank write = 14

unfoldable pub same : Effect → Effect → Bool
unfolding rank
same a b = nat_eq (rank a) (rank b)

-- `effect in effects`, for a frozenset given as a list
unfoldable pub has : Effect → List Effect → Bool
has e [] = false
has e (x ∷ xs) = same x e || has e xs

-- `Effect(name)`, or its `ValueError`
abbrev find_effect : List Effect → String → Option Effect
find_effect [] name = none
find_effect (e ∷ es) name = if effect_value e == name then some e else find_effect es name

unfoldable pub parse_effect : String → Option Effect
unfolding effect_value
parse_effect name = find_effect sorted_effects name

mutual
  pub data Value : Type 0 where
    text : String → Value
    other : String → Value
    items : Values → Value
    fields : Fields → Value

  pub data Values : Type 0 where
    nil : Values
    cons : Value → Values → Values

  pub data Fields : Type 0 where
    end : Fields
    field : String → Value → Fields → Fields

-- `_string_values` of policy.py: the texts at every depth, in order
unfoldable mutual
  pub string_values : Value → List String
  string_values (text s) = s ∷ []
  string_values (other s) = []
  string_values (items vs) = values_strings vs
  string_values (fields fs) = fields_strings fs

  pub values_strings : Values → List String
  values_strings nil = []
  values_strings (cons v vs) = string_values v ++ values_strings vs

  pub fields_strings : Fields → List String
  fields_strings end = []
  fields_strings (field name v fs) = string_values v ++ fields_strings fs

abbrev pub Params : Type 0
Params = Dict Value

-- the texts of the parameters of an action
unfoldable pub param_strings : Params → List String
param_strings [] = []
param_strings ((name, v) ∷ params) = string_values v ++ param_strings params

pub record Action : Type 0 where
  pub tool : String
  pub params : Params
  pub intent : String
  pub task_id : Option String
  pub id : String
  pub estimated_bytes : ℕ
  pub estimated_cost : ℕ
  pub reversible : Bool
  pub target : String

pub record ParamSpec : Type 0 where
  pub required : Bool
  pub default : Option Value
  pub coerce : Value → Option Value

pub record ToolSpec : Type 0 where
  pub name : String
  pub params : Dict ParamSpec
  pub effects : List Effect
  pub platforms : List String
  pub category : String
  pub timeout : ℕ
  pub reversible : Bool
  pub trusted_source : Bool
  pub resources : Option (Params → List String)
  pub estimate : Option (Params → ℕ × ℕ)

-- `supported_here` on the platform `sys.platform`
unfoldable pub supported_here : ToolSpec → String → Bool
supported_here spec platform =
    any (λ p. p == "*") spec.platforms || any (λ p. p == platform) spec.platforms

abbrev pub is_none_value : Value → Bool
is_none_value (other s) = s == "None"
is_none_value _ = false

-- one parameter of `validate`: `none` is a `ToolValidationError`
abbrev pub validate_param : String → ParamSpec → Option Value → Option Params
validate_param name spec none =
    if spec.required
    then none
    else elim spec.default [ none ↦ some [] | some v ↦ some ((name, v) ∷ []) ]
validate_param name spec (some value) =
    if is_none_value value && not spec.required
    then some []
    else elim (spec.coerce value) [ none ↦ none | some v ↦ some ((name, v) ∷ []) ]

abbrev joined : Option Params → Option Params → Option Params
joined none rest = none
joined (some p) none = none
joined (some p) (some q) = some (p ++ q)

unfoldable pub validate_params : Dict ParamSpec → Params → Option Params
validate_params [] given = some []
validate_params ((name, spec) ∷ specs) given =
    joined (validate_param name spec (Dict.get given name)) (validate_params specs given)

-- `ToolSpec.validate`: unknown names are refused first
unfoldable pub validate : ToolSpec → Params → Option Params
unfolding validate_params
validate spec given =
    if all (λ p. is_some (Dict.get spec.params p.0)) given
    then validate_params spec.params given
    else none

unfoldable pub resource_keys : ToolSpec → Params → List String
resource_keys spec params = elim spec.resources [ none ↦ [] | some f ↦ f params ]

unfoldable pub estimates : ToolSpec → Params → ℕ × ℕ
estimates spec params = elim spec.estimate [ none ↦ (0, 0) | some f ↦ f params ]
