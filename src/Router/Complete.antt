-- ===== src/Router/Complete.antt =====
-- Completion across providers (core/src/garis/models/router.py, `complete`).
use garis.Base.{
  ℕ, suc, String, Bool, true, false, Option, some, List, [], ◌∷◌, ◌++◌, ◌≡◌, ◌⊎◌, refl, arith, any,
  max, length, Bool-cases, inl, inr,
}
use garis.Router.{
  ModelRouter, Need, Choice, Call, CallEnd, completed, has_failed, Answer, answered, candidates,
  names, tried, attempts, complete_ranked, complete, json_for,
}
use garis.Router.Spread.{any-take-spread, first_of}

abbrev pub is_answered : Answer → Bool
is_answered (answered c x) = true
is_answered _ = false

abbrev pub is_completed : CallEnd → Bool
is_completed (completed x) = true
is_completed _ = false

module _ (lower : String → String) (within : String → String → Bool)
    (digits : String → Option ℕ) where
  tried_answer :
      (r : ModelRouter) (c : Choice) (rest : ModelRouter → Answer × ModelRouter) (x : CallEnd × ℕ)
      → (is_completed x.0 ≡ true) ⊎ ((s : ModelRouter) → is_answered (rest s).0 ≡ true)
      → is_answered (tried lower within digits r c rest x).0 ≡ true
  tried_answer r c rest (completed x, now) h = refl
  tried_answer r c rest (has_failed exc, now) (inl h) = absurd (cc)
  tried_answer r c rest (has_failed exc, now) (inr h) = h _

  attempts_answer :
      (call : Call) (json : Bool) (p : Choice → Bool)
      → ((n : ℕ) (c : Choice) (j : Bool) → p c ≡ true → is_completed (call n c j).0 ≡ true)
      → (n : ℕ) (attempted : List String) (order : List Choice) (r : ModelRouter)
      → any p order ≡ true
      → is_answered (attempts lower within digits call json n attempted order r).0 ≡ true
  unfolding attempts
  attempts_answer call json p works n attempted [] r h = absurd (cc)
  attempts_answer call json p works n attempted (c ∷ cs) r h =
      let next =
        attempts lower within digits call json (suc n) (attempted ++ c.provider.name ∷ []) cs in
      elim (Bool-cases (p c)) [
        | inl e ↦
            tried_answer r c next (call n c (json_for lower within digits c json))
              (inl (works n c _ e))
        | inr e ↦ tried_answer r c next (call n c (json_for lower within digits c json)) (
            inr (λ s.
              attempts_answer call json p works (suc n) (attempted ++ c.provider.name ∷ []) cs s
                (ground arith)))
      ]

  ranked_answer :
      (call : Call) (json : Bool) (max_attempts : ℕ) (ranked : List Choice) (r : ModelRouter)
      (p : Choice → Bool) (name : String) (c : Choice)
      → ((n : ℕ) (x : Choice) (j : Bool) → p x ≡ true → is_completed (call n x j).0 ≡ true)
      → first_of name ranked ≡ some c
      → p c ≡ true
      → is_answered (complete_ranked lower within digits call json max_attempts ranked r).0 ≡ true
  ranked_answer call json max_attempts [] r p name c works f h = absurd (cc)
  ranked_answer call json max_attempts (x ∷ xs) r p name c works f h =
      attempts_answer call json p works 0 [] _ r (
        any-take-spread p (max max_attempts (length (names [] (x ∷ xs)))) (x ∷ xs) name c
          (omega arith) f h)

  -- If for one provider the best of its candidates answers whenever it is called, the request is
  -- answered, whatever happens at all others and however few attempts are asked for: no failing vendor
  -- uses the attempts up.
  pub complete_answers :
      (r : ModelRouter) (need : Need) (call : Call) (json : Bool) (max_attempts now : ℕ)
      (works : Choice → Bool) (name : String) (c : Choice)
      → ((n : ℕ) (x : Choice) (j : Bool) → works x ≡ true → is_completed (call n x j).0 ≡ true)
      → first_of name (candidates r need now) ≡ some c
      → works c ≡ true
      → is_answered (complete lower within digits r need call json max_attempts now).0 ≡ true
  unfolding complete
  complete_answers r need call json max_attempts now works name c w f h =
      ranked_answer call json max_attempts (candidates r need now) r works name c w f h
