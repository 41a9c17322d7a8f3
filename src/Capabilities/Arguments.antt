-- ===== src/Capabilities/Arguments.antt =====
-- Only declared arguments reach an executor (core/src/garis/capabilities/base.py, `validate`).
use garis.Base.{
  String, Bool, true, false, Option, none, some, List, [], ◌∷◌, ◌==◌, ◌≡◌, ◌∙◌, refl, ap, arith,
  eq_iff, any, is_some, Bool-cases, inl, inr,
}
use garis.Dict
use garis.Dict.{Dict}
use garis.Actions.{Value}
use garis.Capabilities.{Field, coerce, put_coerced, validate_field, validate}

abbrev pub is_declared : List Field → String → Bool
is_declared specs name = any (λ spec. spec.name == name) specs

module _ (convert : String → Value → Option Value) where
  abbrev Sound : List Field → Dict Value → String → Type 0
  Sound specs args name = (is_declared specs name ≡ true) × (is_some (Dict.get args name) ≡ true)

  module _ (spec : Field) (specs : List Field) (args : Dict Value) (name : String)
      (later : (out : Dict Value)
        → validate convert specs args ≡ some out
        → is_some (Dict.get out name) ≡ true
        → Sound specs args name) where
    weaker : Sound specs args name → Sound (spec ∷ specs) args name
    weaker (a, b) = (ground (arith, a), b)

    by_coerced :
        (o : Option Value) (rest : Option (Dict Value)) (out : Dict Value)
        → validate convert specs args ≡ rest
        → is_some (Dict.get args spec.name) ≡ true
        → put_coerced convert spec.name o rest ≡ some out
        → is_some (Dict.get out name) ≡ true
        → Sound (spec ∷ specs) args name
    unfolding Dict.get
    by_coerced none rest out e t h g = absurd (cc)
    by_coerced (some v) none out e t h g = absurd (cc)
    by_coerced (some v) (some more) out e t h g = elim (Bool-cases (spec.name == name)) [
      | inl b ↦
          let same : spec.name ≡ name = ground (arith, b, eq_iff spec.name name) in
          (rw b refl, rw same at t)
      | inr b ↦
          let shape : (spec.name, v) ∷ more ≡ out = ground (arith, h) in
          let inside : is_some (Dict.get ((spec.name, v) ∷ more) name) ≡ true =
            ap (λ d. is_some (Dict.get d name)) shape ∙ g in
          weaker (later more e (rw b at inside))
    ]

    by_given :
        (o : Option Value) (out : Dict Value)
        → Dict.get args spec.name ≡ o
        → validate_field convert spec o (validate convert specs args) ≡ some out
        → is_some (Dict.get out name) ≡ true
        → Sound (spec ∷ specs) args name
    by_given none out e h g = elim (Bool-cases spec.required) [
      | inl b ↦ absurd (let no : none ≡ some out = rw b at h in cc)
      | inr b ↦ weaker (later out (rw b at h) g)
    ]
    by_given (some v) out e h g =
        by_coerced (coerce convert spec.kind v) (validate convert specs args) out refl
          (ap is_some e) h g

  -- Every argument that comes out of a validation that succeeds is one that the capability declares and
  -- that was given: what a planner invents is dropped.
  pub validate_sound :
      (specs : List Field) (args out : Dict Value) (name : String)
      → validate convert specs args ≡ some out
      → is_some (Dict.get out name) ≡ true
      → (is_declared specs name ≡ true) × (is_some (Dict.get args name) ≡ true)
  unfolding validate Dict.get
  validate_sound [] args out name h g =
      let shape : [] ≡ out = ground (arith, h) in
      let inside : false ≡ true = ap (λ d. is_some (Dict.get d name)) shape ∙ g in absurd (cc)
  validate_sound (spec ∷ specs) args out name h g =
      by_given spec specs args name (λ o e f. validate_sound specs args o name e f)
        (Dict.get args spec.name) out refl h g
