-- ===== src/Capabilities/Evidence.antt =====
-- What a verdict on evidence rests on (core/src/garis/capabilities/base.py).
use garis.Base.{
  String, Bool, true, false, List, [], ◌∷◌, ◌≡◌, ◌∙◌, refl, ◌&&◌, not, all, Bool-cases, inl, inr,
}
use garis.Dict
use garis.Dict.{Dict}
use garis.Actions.{Value}
use garis.Capabilities.{
  Field, Outcome, Verdict, is_gap, missing_evidence, gaps_verdict, evidence_verdict,
}

-- The field is there and passes its check, or is absent and not required.
abbrev pub is_proved : Dict Value → Field → Bool
is_proved evidence spec = not (is_gap spec (Dict.get evidence spec.name))

abbrev no_name : List String → Bool
no_name [] = true
no_name (g ∷ gs) = false

no_name-missing_evidence :
    (specs : List Field) (evidence : Dict Value)
    → no_name (missing_evidence specs evidence) ≡ all (is_proved evidence) specs
unfolding missing_evidence
no_name-missing_evidence [] evidence = refl
no_name-missing_evidence (spec ∷ specs) evidence =
    elim (Bool-cases (is_gap spec (Dict.get evidence spec.name))) [
      | inl b ↦ rw b refl
      | inr b ↦ rw b (no_name-missing_evidence specs evidence)
    ]

abbrev pub is_good : Verdict → Bool
is_good v = v.ok && v.checked

good-gaps_verdict : (gs : List String) → is_good (gaps_verdict gs) ≡ no_name gs
good-gaps_verdict [] = refl
good-gaps_verdict (g ∷ gs) = refl

abbrev pub declares : List Field → Bool
declares [] = false
declares (spec ∷ specs) = true

-- The verifier of evidence says that a run is verified just when the capability declares evidence, its
-- executor reported success, and every declared field is there and passes its check, or is absent and
-- not required.
pub good-evidence_verdict :
    (declared : List Field) (outcome : Outcome)
    → is_good (evidence_verdict declared outcome)
      ≡ (declares declared && (outcome.ok && all (is_proved outcome.evidence) declared))
unfolding evidence_verdict
good-evidence_verdict [] outcome = refl
good-evidence_verdict (spec ∷ specs) outcome = elim (Bool-cases outcome.ok) [
  | inl b ↦ rw b (
      good-gaps_verdict (missing_evidence (spec ∷ specs) outcome.evidence)
      ∙ no_name-missing_evidence (spec ∷ specs) outcome.evidence)
  | inr b ↦ rw b refl
]
