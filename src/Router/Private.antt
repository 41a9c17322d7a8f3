-- ===== src/Router/Private.antt =====
-- What stays on the machine (core/src/garis/models/router.py, `candidates` and `complete`).
use garis.Base.{
  ℕ, zero, suc, ◌≤◌, String, Bool, true, Option, List, [], ◌∷◌, ◌++◌, ◌≡◌, refl, ◌∙◌, arith, ◌||◌,
  not, count, count-append, max, length, ap,
}
use garis.Router.{
  ModelRouter, ModelSpec, Need, Provider, Choice, Call, CallEnd, completed, has_failed, Answer,
  candidates, all_choices, choices_of, eligible, choice_of, insert_choice, sort_choices, spread,
  names, take, tried, attempts, complete_ranked, complete, json_for, is_local_only, over_budget,
}
use garis.Router.Spread.{count-spread}

abbrev pub is_cloud : Choice → Bool
is_cloud c = not c.model.local

abbrev pub cloud_count : List Choice → ℕ
cloud_count cs = count is_cloud cs

count-insert_choice :
    (p : Choice → Bool) (c : Choice) (cs : List Choice)
    → count p (insert_choice c cs) ≡ count p (c ∷ cs)
unfolding insert_choice
count-insert_choice p c [] = refl
count-insert_choice p c (x ∷ xs) = ground (arith, count-insert_choice p c xs)

count-sort_choices : (p : Choice → Bool) (cs : List Choice) → count p (sort_choices cs) ≡ count p cs
unfolding sort_choices
count-sort_choices p [] = refl
count-sort_choices p (c ∷ cs) =
    ground (arith, count-insert_choice p c (sort_choices cs), count-sort_choices p cs)

count-take : (p : Choice → Bool) (n : ℕ) (cs : List Choice) → count p (take n cs) ≤ count p cs
unfolding take
count-take p n [] = omega arith
count-take p zero (c ∷ cs) = omega arith
count-take p (suc n) (c ∷ cs) = ground (arith, count-take p n cs)

-- Nothing may leave the machine: the need says so, the configuration forbids it, or the budget is spent.
abbrev pub stays_here : ModelRouter → Need → Bool
stays_here r need = is_local_only need.privacy || (not r.config.allow_cloud || over_budget r)

module _ (r : ModelRouter) (need : Need) (here : stays_here r need ≡ true) where
  eligible_local : (m : ModelSpec) → eligible r need m ≡ true → m.local ≡ true
  unfolding eligible
  eligible_local m h = ground (arith, here)

  choices_local : (p : Provider) (ms : List ModelSpec) → cloud_count (choices_of r need p ms) ≡ 0
  unfolding choices_of choice_of
  choices_local p [] = refl
  choices_local p (m ∷ ms) = ground (arith, choices_local p ms, eligible_local m)

  all_local : (now : ℕ) (ps : List Provider) → cloud_count (all_choices r need now ps) ≡ 0
  unfolding all_choices
  all_local now [] = refl
  all_local now (p ∷ ps) = ground (
    arith,
    all_local now ps,
    choices_local p p.models,
    count-append is_cloud (choices_of r need p p.models) (all_choices r need now ps),
  )

  pub candidates_local : (now : ℕ) → cloud_count (candidates r need now) ≡ 0
  unfolding candidates
  candidates_local now =
      count-sort_choices is_cloud (all_choices r need now r.providers) ∙ all_local now r.providers

module _ (lower : String → String) (within : String → String → Bool) (digits : String → Option ℕ)
    (call call' : Call)
    (same : (n : ℕ) (c : Choice) (j : Bool) → c.model.local ≡ true → call n c j ≡ call' n c j) where
  tried_same :
      (r : ModelRouter) (c : Choice) (rest rest' : ModelRouter → Answer × ModelRouter)
      (x : CallEnd × ℕ)
      → ((s : ModelRouter) → rest s ≡ rest' s)
      → tried lower within digits r c rest x ≡ tried lower within digits r c rest' x
  tried_same r c rest rest' (completed x, now) e = refl
  tried_same r c rest rest' (has_failed exc, now) e = e _

  attempts_same :
      (json : Bool) (n : ℕ) (attempted : List String) (order : List Choice) (r : ModelRouter)
      → cloud_count order ≡ 0
      → attempts lower within digits call json n attempted order r
        ≡ attempts lower within digits call' json n attempted order r
  unfolding attempts
  attempts_same json n attempted [] r h = refl
  attempts_same json n attempted (c ∷ cs) r h =
      let j = json_for lower within digits c json in
      ap
        (tried lower within digits r c
          (attempts lower within digits call json (suc n) (attempted ++ c.provider.name ∷ []) cs))
        (same n c j (ground arith))
      ∙ tried_same r c _ _ (call' n c j)
          (λ s. attempts_same json (suc n) (attempted ++ c.provider.name ∷ []) cs s (ground arith))

  ranked_same :
      (json : Bool) (max_attempts : ℕ) (ranked : List Choice) (r : ModelRouter)
      → cloud_count ranked ≡ 0
      → complete_ranked lower within digits call json max_attempts ranked r
        ≡ complete_ranked lower within digits call' json max_attempts ranked r
  ranked_same json max_attempts [] r h = refl
  ranked_same json max_attempts (c ∷ cs) r h =
      let n = max max_attempts (length (names [] (c ∷ cs))) in
      attempts_same json 0 [] (take n (spread (c ∷ cs))) r
        (omega (arith, count-take is_cloud n (spread (c ∷ cs)), count-spread is_cloud (c ∷ cs), h))

  -- Where the need is for this machine only, the configuration forbids the cloud, or the budget is
  -- spent, a request does not depend on what any cloud model would answer: none is called, in no
  -- fallback either.
  pub complete_private :
      (r : ModelRouter) (need : Need) (json : Bool) (max_attempts now : ℕ)
      → stays_here r need ≡ true
      → complete lower within digits r need call json max_attempts now
        ≡ complete lower within digits r need call' json max_attempts now
  unfolding complete
  complete_private r need json max_attempts now here =
      ranked_same json max_attempts (candidates r need now) r (candidates_local r need here now)
