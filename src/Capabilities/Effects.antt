-- ===== src/Capabilities/Effects.antt =====
-- An effect is not made twice (core/src/garis/capabilities/registry.py, `perform`).
use garis.Base.{
  String, true, Option, none, some, List, [], ◌∷◌, ◌==◌, ◌≡◌, ◌∙◌, refl, sym, ap, arith, eq_iff,
  ◌&&◌, not, Bool-cases, inl, inr,
}
use garis.Dict
use garis.Dict.{Dict, get-put}
use garis.Actions.{Value}
use garis.Capabilities.{
  Capability, Invocation, Performed, Registry, is_performed, outcome_of, validate, supported_here,
  performed_as, keep_effect, invoked, recorded, unless_recorded, perform_known, perform,
}

pub record Request : Type 0 where
  pub capability : String
  pub args : Dict Value
  pub effect_id : String

module _ {W : Type 0} (convert : String → Value → Option Value) (platform : String) where
  -- any number of calls, one after the other
  unfoldable pub run : List Request → Registry W → W → Registry W × W
  run [] reg w = (reg, w)
  run (q ∷ qs) reg w =
      let r = perform convert platform q.capability q.args q.effect_id reg w in run qs r.1.0 r.1.1

  -- the two registries have the same capabilities, and the record of the effect is there in both
  abbrev Keeps : String → Performed → Registry W → Registry W → Type 0
  Keeps e p reg reg' = (reg'.by_id ≡ reg.by_id) × (recorded convert platform e reg' ≡ some p)

  keep_effect-Keeps :
      (e : String) (p q : Performed) (reg : Registry W)
      → recorded convert platform e reg ≡ some p
      → recorded convert platform q.effect_id reg ≡ none
      → Keeps e p reg (keep_effect convert platform q reg)
  keep_effect-Keeps e p q reg h n = elim (Bool-cases (not (q.effect_id == "") && q.outcome.ok)) [
    | inl b ↦ elim (Bool-cases (q.effect_id == e)) [
      | inl c ↦
          let same : q.effect_id ≡ e = ground (arith, c, eq_iff q.effect_id e) in
          let gone : none ≡ some p = sym (rw same at n) ∙ h in absurd (cc)
      | inr c ↦ rw b (refl, ground (arith, h, c, get-put reg.performed q.effect_id e q))
    ]
    | inr b ↦ rw b (refl, h)
  ]

  perform-Keeps :
      (e : String) (p : Performed) (q : Request) (reg : Registry W) (w : W)
      → recorded convert platform e reg ≡ some p
      → Keeps e p reg (perform convert platform q.capability q.args q.effect_id reg w).1.0
  unfolding perform
  perform-Keeps e p q reg w h = by_capability (Dict.get reg.by_id q.capability)
    where
      by_args :
          (c : Capability W) (o : Option (Dict Value))
          → recorded convert platform q.effect_id reg ≡ none
          → Keeps e p reg (invoked convert platform c q.effect_id o reg w).1.0
      by_args c none n = (refl, h)
      by_args c (some args) n =
          let call : Invocation = record {
            capability = c.id;
            args = args;
            effect_id = q.effect_id;
          } in
          let r = c.executor w call in
          let outcome = outcome_of c.risk r.0 in
          keep_effect-Keeps e p
            (performed_as convert platform c outcome (c.verifier r.1 call outcome).0 q.effect_id)
            reg h n

      by_record :
          (c : Capability W) (o : Option Performed)
          → recorded convert platform q.effect_id reg ≡ o
          → Keeps e p reg (unless_recorded convert platform o c q.args q.effect_id reg w).1.0
      by_record c (some old) n = (refl, h)
      by_record c none n = by_args c (validate convert c.inputs q.args) n

      by_capability :
          (o : Option (Capability W))
          → Keeps e p reg (perform_known convert platform o q.args q.effect_id reg w).1.0
      by_capability none = (refl, h)
      by_capability (some c) = elim (Bool-cases (supported_here convert platform c)) [
        | inl b ↦ rw b (by_record c (recorded convert platform q.effect_id reg) refl)
        | inr b ↦ rw b (refl, h)
      ]

  run-Keeps :
      (e : String) (p : Performed) (qs : List Request) (reg : Registry W) (w : W)
      → recorded convert platform e reg ≡ some p
      → Keeps e p reg (run qs reg w).0
  unfolding run
  run-Keeps e p [] reg w h = (refl, h)
  run-Keeps e p (q ∷ qs) reg w h =
      let r = perform convert platform q.capability q.args q.effect_id reg w in
      let (a, b) = perform-Keeps e p q reg w h in
      let (c, d) = run-Keeps e p qs r.1.0 r.1.1 b in (c ∙ a, d)

  -- Once the result of an effect is recorded, and whatever is performed after it, a call with the same
  -- effect id of a capability that is known and runs here gives the recorded result, with whatever
  -- arguments, and neither the world nor the registry changes: no executor runs.
  pub perform_again :
      (e : String) (p : Performed) (qs : List Request) (reg : Registry W) (w : W) (id : String)
      (args : Dict Value) (c : Capability W)
      → recorded convert platform e reg ≡ some p
      → Dict.get reg.by_id id ≡ some c
      → supported_here convert platform c ≡ true
      → perform convert platform id args e (run qs reg w).0 (run qs reg w).1
        ≡ (is_performed p, run qs reg w)
  unfolding perform
  perform_again e p qs reg w id args c h k s =
      let (a, b) = run-Keeps e p qs reg w h in
      let there : Dict.get (run qs reg w).0.by_id id ≡ some c = ap (λ d. Dict.get d id) a ∙ k in
      ap (λ o. perform_known convert platform o args e (run qs reg w).0 (run qs reg w).1) there
      ∙ rw s (
          ap (λ o. unless_recorded convert platform o c args e (run qs reg w).0 (run qs reg w).1) b)
