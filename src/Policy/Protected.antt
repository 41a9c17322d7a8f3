-- ===== src/Policy/Protected.antt =====
-- The files that hold GARIS's own controls (core/src/garis/runtime/policy.py, `_hard_deny`).
use garis.Base.{
  String, Bool, true, false, Option, some, none, List, [], ◌∷◌, ◌++◌, ◌||◌, ◌≡◌, ◌≢◌, ◌↔◌, refl,
  arith, any, contains, ◌==◌, Bool-cases, eq_iff, str_ne, inl, inr, ap,
}
use garis.Actions.{
  Effect, Value, Values, Fields, text, other, items, fields, nil, cons, end, field, string_values,
  values_strings, fields_strings, param_strings, Params, Action, ToolSpec,
}
use garis.Policy.{
  confirm, deny, Verdict, verdict, AutonomyConfig, Paths, denied_or, gates, gated, notices,
  hard_deny, evaluate, is_mutating, is_protected,
}

-- A text stands somewhere in a value: it is the value, or it stands in one of its items or fields.
mutual
  pub data Inside (s : String) : Value → Type 0 where
    itself : {t : String} → s ≡ t → Inside s (text t)
    in_items : {vs : Values} → InItems s vs → Inside s (items vs)
    in_fields : {fs : Fields} → InFields s fs → Inside s (fields fs)

  pub data InItems (s : String) : Values → Type 0 where
    first_item : {v : Value} {vs : Values} → Inside s v → InItems s (cons v vs)
    later_item : {v : Value} {vs : Values} → InItems s vs → InItems s (cons v vs)

  pub data InFields (s : String) : Fields → Type 0 where
    first_field :
        {name : String} {v : Value} {fs : Fields} → Inside s v → InFields s (field name v fs)
    later_field :
        {name : String} {v : Value} {fs : Fields} → InFields s fs → InFields s (field name v fs)

-- It stands in one of the parameters.
pub data InParams (s : String) : Params → Type 0 where
  first_param :
      {name : String} {v : Value} {params : Params} → Inside s v → InParams s ((name, v) ∷ params)
  later_param :
      {name : String} {v : Value} {params : Params}
      → InParams s params
      → InParams s ((name, v) ∷ params)

-- A tool that may change something, of another category than the vault's, has such a path inside.
pub record Touches (norm : String → String) (paths : Paths) (spec : ToolSpec) (action : Action)
    : Type 0 where
  pub mutates : is_mutating spec.effects ≡ true
  pub no_vault_tool : spec.category ≢ "vault"
  pub path : String
  pub inside : InParams path action.params
  pub guarded : is_protected norm paths path ≡ true

contains-append :
    (s : String) (xs ys : List String) → contains s (xs ++ ys) ≡ (contains s xs || contains s ys)
contains-append s [] ys = refl
contains-append s (x ∷ xs) ys = ground (arith, contains-append s xs ys)

contains_left :
    (s : String) (xs ys : List String) → contains s xs ≡ true → contains s (xs ++ ys) ≡ true
contains_left s xs ys h = ground (arith, contains-append s xs ys)

contains_right :
    (s : String) (xs ys : List String) → contains s ys ≡ true → contains s (xs ++ ys) ≡ true
contains_right s xs ys h = ground (arith, contains-append s xs ys)

contains_later :
    (s : String) (xs ys : List String)
    → contains s (xs ++ ys) ≡ true
    → contains s xs ≡ false
    → contains s ys ≡ true
contains_later s xs ys h n = ground (arith, contains-append s xs ys)

mutual
  unfolding string_values

  contains_of_Inside : (s : String) (v : Value) → Inside s v → contains s (string_values v) ≡ true
  contains_of_Inside s (text t) (itself e) = ground (arith, e, eq_iff t s)
  contains_of_Inside s (other t) i = elim i [ ]
  contains_of_Inside s (items vs) (in_items i) = contains_of_InItems s vs i
  contains_of_Inside s (fields fs) (in_fields i) = contains_of_InFields s fs i

  contains_of_InItems :
      (s : String) (vs : Values) → InItems s vs → contains s (values_strings vs) ≡ true
  contains_of_InItems s nil i = elim i [ ]
  contains_of_InItems s (cons v vs) (first_item i) =
      contains_left s (string_values v) (values_strings vs) (contains_of_Inside s v i)
  contains_of_InItems s (cons v vs) (later_item i) =
      contains_right s (string_values v) (values_strings vs) (contains_of_InItems s vs i)

  contains_of_InFields :
      (s : String) (fs : Fields) → InFields s fs → contains s (fields_strings fs) ≡ true
  contains_of_InFields s end i = elim i [ ]
  contains_of_InFields s (field name v fs) (first_field i) =
      contains_left s (string_values v) (fields_strings fs) (contains_of_Inside s v i)
  contains_of_InFields s (field name v fs) (later_field i) =
      contains_right s (string_values v) (fields_strings fs) (contains_of_InFields s fs i)

mutual
  unfolding string_values

  Inside-of_contains : (s : String) (v : Value) → contains s (string_values v) ≡ true → Inside s v
  Inside-of_contains s (text t) h = itself (ground (arith, h, eq_iff t s))
  Inside-of_contains s (other t) h = absurd (cc)
  Inside-of_contains s (items vs) h = in_items (InItems-of_contains s vs h)
  Inside-of_contains s (fields fs) h = in_fields (InFields-of_contains s fs h)

  InItems-of_contains :
      (s : String) (vs : Values) → contains s (values_strings vs) ≡ true → InItems s vs
  InItems-of_contains s nil h = absurd (cc)
  InItems-of_contains s (cons v vs) h = elim (Bool-cases (contains s (string_values v))) [
    | inl c ↦ first_item (Inside-of_contains s v c)
    | inr n ↦ later_item (InItems-of_contains s vs (contains_later s _ (values_strings vs) h n))
  ]

  InFields-of_contains :
      (s : String) (fs : Fields) → contains s (fields_strings fs) ≡ true → InFields s fs
  InFields-of_contains s end h = absurd (cc)
  InFields-of_contains s (field name v fs) h = elim (Bool-cases (contains s (string_values v))) [
    | inl c ↦ first_field (Inside-of_contains s v c)
    | inr n ↦ later_field (InFields-of_contains s fs (contains_later s _ (fields_strings fs) h n))
  ]

contains_of_InParams :
    (s : String) (ps : Params) → InParams s ps → contains s (param_strings ps) ≡ true
unfolding param_strings
contains_of_InParams s [] i = elim i [ ]
contains_of_InParams s ((name, v) ∷ ps) (first_param i) =
    contains_left s (string_values v) (param_strings ps) (contains_of_Inside s v i)
contains_of_InParams s ((name, v) ∷ ps) (later_param i) =
    contains_right s (string_values v) (param_strings ps) (contains_of_InParams s ps i)

InParams-of_contains :
    (s : String) (ps : Params) → contains s (param_strings ps) ≡ true → InParams s ps
unfolding param_strings
InParams-of_contains s [] h = absurd (cc)
InParams-of_contains s ((name, v) ∷ ps) h = elim (Bool-cases (contains s (string_values v))) [
  | inl c ↦ first_param (Inside-of_contains s v c)
  | inr n ↦ later_param (InParams-of_contains s ps (contains_later s _ (param_strings ps) h n))
]

any_of_contains :
    (p : String → Bool) (xs : List String) (x : String)
    → contains x xs ≡ true
    → p x ≡ true
    → any p xs ≡ true
any_of_contains p [] x c h = absurd (cc)
any_of_contains p (y ∷ xs) x c h = elim (Bool-cases (y == x)) [
  | inl s ↦ rw ((eq_iff y x).0 s, h)
  | inr s ↦ ground (arith, any_of_contains p xs x)
]

found_by_any :
    (p : String → Bool) (xs : List String)
    → any p xs ≡ true
    → (x : String) × (contains x xs ≡ true) × (p x ≡ true)
found_by_any p [] h = absurd (cc)
found_by_any p (y ∷ xs) h = elim (Bool-cases (p y)) [
  | inl e ↦ (y, ground (arith, eq_iff y y), e)
  | inr e ↦ let (x, c, q) = found_by_any p xs (ground (arith, h, e)) in (x, ground (arith, c), q)
]

module _ (norm : String → String) (repr : Value → String) (paths : Paths) (c : AutonomyConfig)
    (spec : ToolSpec) (action : Action) where
  denied_of_Touches :
      Touches norm paths spec action
      → evaluate norm repr paths c spec action ≡ verdict deny "guardrails"
  unfolding evaluate hard_deny
  denied_of_Touches t = rw (
    t.mutates,
    any_of_contains (is_protected norm paths) (param_strings action.params) t.path
        (contains_of_InParams t.path action.params t.inside) t.guarded,
    str_ne spec.category "vault" t.no_vault_tool,
  )

  gates_never_deny : (g : List Effect) → gates c spec action g ≢ verdict deny "guardrails"
  unfolding notices
  gates_never_deny [] h = ground (arith, ap (λ v. v.decision) h)
  gates_never_deny (e ∷ g) h = absurd (is_no_denial (ap (λ v. v.decision) h))
    where
      is_no_denial : confirm ≢ deny
      is_no_denial k = cc

  denied_rule :
      (v : Verdict) (o : Option String)
      → denied_or v o ≡ verdict deny "guardrails"
      → v ≢ verdict deny "guardrails"
      → o ≡ some "guardrails"
  denied_rule v none h n = absurd (n h)
  denied_rule v (some rule) h n = ap (λ w. some w.rule) h

  Touches-of_rule :
      hard_deny norm repr paths spec action ≡ some "guardrails" → Touches norm paths spec action
  unfolding hard_deny
  Touches-of_rule h =
      let (m, v, a) = guards in
      let (x, k, p) = found_by_any (is_protected norm paths) (param_strings action.params) a in
      record {
        mutates = m;
        no_vault_tool = λ e. ground (arith, v, eq_iff spec.category "vault");
        path = x;
        inside = InParams-of_contains x action.params k;
        guarded = p;
      }
    where
      guards :
          (is_mutating spec.effects ≡ true)
          × ((spec.category == "vault") ≡ false)
          × (any (is_protected norm paths) (param_strings action.params) ≡ true)
      guards = ground (arith, h, eq_iff "policy_self_edit" "guardrails")

  -- An action is refused under the rule `guardrails` exactly when its tool may change something, is of
  -- another category than the vault's, and the path of the key, the vault or the state database stands
  -- among its parameters: as one of them, or in the lists and dictionaries of one at any depth.
  pub evaluate_protected :
      (evaluate norm repr paths c spec action ≡ verdict deny "guardrails")
      ↔ Touches norm paths spec action
  unfolding evaluate
  evaluate_protected = (
    λ h. Touches-of_rule (
        denied_rule (gates c spec action (gated c spec.effects))
          (hard_deny norm repr paths spec action) h (gates_never_deny (gated c spec.effects))),
    denied_of_Touches,
  )
