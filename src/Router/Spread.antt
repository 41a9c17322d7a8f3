-- ===== src/Router/Spread.antt =====
-- The order of the attempts (core/src/garis/models/router.py, `spread`).
use garis.Base.{
  ℕ, zero, suc, ◌+◌, ◌≤◌, String, Bool, true, Option, none, some, List, [], ◌∷◌, ◌++◌, ◌≡◌, refl,
  sym, ap, subst, ◌∙◌, arith, ◌==◌, eq_iff, count, count-append, length, length-append, contains,
  any, if◌then◌else◌, Bool-cases, inl, inr,
}
use garis.Dict
use garis.Dict.{Dict}
use garis.Router.{
  Choice, grouped_with, with_choice, group, heads, tails, rounds, spread, names, take,
}

-- how many choices of the groups satisfy a test
abbrev group_count : (Choice → Bool) → Dict (List Choice) → ℕ
group_count p [] = 0
group_count p ((name, cs) ∷ groups) = count p cs + group_count p groups

-- No group has more choices.
abbrev NoLonger : ℕ → Dict (List Choice) → Type 0
NoLonger n [] = Unit
NoLonger n ((name, cs) ∷ groups) = (length cs ≤ n) × NoLonger n groups

tails-NoLonger :
    (n : ℕ) (groups : Dict (List Choice)) → NoLonger (suc n) groups → NoLonger n (tails groups)
unfolding tails
tails-NoLonger n [] h = tt
tails-NoLonger n ((name, []) ∷ groups) h = (omega arith, tails-NoLonger n groups h.1)
tails-NoLonger n ((name, c ∷ cs) ∷ groups) h = (omega (arith, h.0), tails-NoLonger n groups h.1)

NoLonger-suc : (n : ℕ) (groups : Dict (List Choice)) → NoLonger n groups → NoLonger (suc n) groups
NoLonger-suc n [] h = tt
NoLonger-suc n ((name, cs) ∷ groups) h = (omega (arith, h.0), NoLonger-suc n groups h.1)

put-NoLonger :
    (n : ℕ) (groups : Dict (List Choice)) (name : String) (c : Choice)
    → NoLonger n groups
    → NoLonger (suc n) (Dict.put groups name (with_choice (Dict.get groups name) c))
unfolding Dict.put Dict.get
put-NoLonger n [] name c h = (omega arith, tt)
put-NoLonger n ((k, cs) ∷ groups) name c h = elim (Bool-cases (k == name)) [
  | inl e ↦ rw e (omega (arith, length-append cs (c ∷ []), h.0), NoLonger-suc n groups h.1)
  | inr e ↦ rw e (omega (arith, h.0), put-NoLonger n groups name c h.1)
]

group-NoLonger :
    (n : ℕ) (groups : Dict (List Choice)) (cs : List Choice)
    → NoLonger n groups
    → NoLonger (length cs + n) (group groups cs)
unfolding group
group-NoLonger n groups [] h = subst (λ m. NoLonger m groups) (omega arith) h
group-NoLonger n groups (c ∷ cs) h =
    subst (λ m. NoLonger m (group (grouped_with groups c) cs)) (omega arith)
      (group-NoLonger (suc n) (grouped_with groups c) cs
        (put-NoLonger n groups c.provider.name c h))

module _ (p : Choice → Bool) where
  count-heads :
      (groups : Dict (List Choice))
      → count p (heads groups) + group_count p (tails groups) ≡ group_count p groups
  unfolding heads tails
  count-heads [] = refl
  count-heads ((name, []) ∷ groups) = ground (arith, count-heads groups)
  count-heads ((name, c ∷ cs) ∷ groups) = ground (arith, count-heads groups)

  empty_groups : (groups : Dict (List Choice)) → NoLonger 0 groups → group_count p groups ≡ 0
  empty_groups [] h = refl
  empty_groups ((name, []) ∷ groups) h = ground (arith, empty_groups groups h.1)
  empty_groups ((name, c ∷ cs) ∷ groups) h = absurd (omega (arith, h.0))

  count-rounds :
      (n : ℕ) (groups : Dict (List Choice))
      → NoLonger n groups
      → count p (rounds n groups) ≡ group_count p groups
  unfolding rounds
  count-rounds zero groups h = sym (empty_groups groups h)
  count-rounds (suc n) groups h = omega (
    arith,
    count-append p (heads groups) (rounds n (tails groups)),
    count-rounds n (tails groups) (tails-NoLonger n groups h),
    count-heads groups,
  )

  count-grouped_with :
      (groups : Dict (List Choice)) (name : String) (c : Choice)
      → group_count p (Dict.put groups name (with_choice (Dict.get groups name) c))
        ≡ group_count p groups + count p (c ∷ [])
  unfolding Dict.put Dict.get
  count-grouped_with [] name c = ground arith
  count-grouped_with ((k, cs) ∷ groups) name c =
      ground (arith, count-append p cs (c ∷ []), count-grouped_with groups name c)

  count-group :
      (groups : Dict (List Choice)) (cs : List Choice)
      → group_count p (group groups cs) ≡ group_count p groups + count p cs
  unfolding group
  count-group groups [] = omega arith
  count-group groups (c ∷ cs) =
      ground
        (arith, count-group (grouped_with groups c) cs, count-grouped_with groups c.provider.name c)

  -- The order of the attempts has the choices of the ranking, each as often as the ranking has it.
  pub count-spread : (ranked : List Choice) → count p (spread ranked) ≡ count p ranked
  unfolding spread
  count-spread ranked =
      count-rounds (length ranked) (group [] ranked)
        (subst (λ m. NoLonger m (group [] ranked)) (omega arith) (group-NoLonger 0 [] ranked tt))
      ∙ (count-group [] ranked ∙ omega arith)

-- the keys of the groups are the names that were seen
abbrev keys : Dict (List Choice) → List String
keys [] = []
keys ((name, cs) ∷ groups) = name ∷ keys groups

keys-put :
    (groups : Dict (List Choice)) (name : String) (cs : List Choice)
    → keys (Dict.put groups name cs)
      ≡ (if contains name (keys groups) then keys groups else keys groups ++ name ∷ [])
unfolding Dict.put
keys-put [] name cs = refl
keys-put ((k, ds) ∷ groups) name cs = ground (arith, keys-put groups name cs, eq_iff k name)

keys-group :
    (groups : Dict (List Choice)) (cs : List Choice)
    → keys (group groups cs) ≡ names (keys groups) cs
unfolding group names
keys-group groups [] = refl
keys-group groups (c ∷ cs) =
    keys-group (grouped_with groups c) cs
    ∙ ap (λ ks. names ks cs) (keys-put groups c.provider.name _)

length-heads : (groups : Dict (List Choice)) → length (heads groups) ≤ length (keys groups)
unfolding heads
length-heads [] = omega arith
length-heads ((name, []) ∷ groups) = omega (arith, length-heads groups)
length-heads ((name, c ∷ cs) ∷ groups) = omega (arith, length-heads groups)

-- the first choice of a provider
abbrev pub first_of : String → List Choice → Option Choice
first_of name [] = none
first_of name (c ∷ cs) = if c.provider.name == name then some c else first_of name cs

abbrev leads : Option (List Choice) → Option Choice → Option Choice
leads none later = later
leads (some []) later = later
leads (some (c ∷ cs)) later = some c

leads-put :
    (o : Option (List Choice)) (c : Choice) (later : Option Choice)
    → leads (some (with_choice o c)) later ≡ leads o (some c)
leads-put none c later = refl
leads-put (some []) c later = refl
leads-put (some (x ∷ xs)) c later = refl

leads-grouped_with :
    (groups : Dict (List Choice)) (c : Choice) (name : String) (later : Option Choice)
    → leads (Dict.get (grouped_with groups c) name) later
      ≡ leads (Dict.get groups name) (if c.provider.name == name then some c else later)
leads-grouped_with groups c name later = ground (
  arith,
  Dict.get-put groups c.provider.name name (with_choice (Dict.get groups c.provider.name) c),
  leads-put (Dict.get groups name) c later,
  eq_iff c.provider.name name,
)

leads-group :
    (groups : Dict (List Choice)) (cs : List Choice) (name : String)
    → leads (Dict.get (group groups cs) name) none ≡ leads (Dict.get groups name) (first_of name cs)
unfolding group
leads-group groups [] name = refl
leads-group groups (c ∷ cs) name =
    leads-group (grouped_with groups c) cs name
    ∙ leads-grouped_with groups c name (first_of name cs)

any-heads :
    (p : Choice → Bool) (groups : Dict (List Choice)) (name : String) (c : Choice)
    → leads (Dict.get groups name) none ≡ some c
    → p c ≡ true
    → any p (heads groups) ≡ true
unfolding heads Dict.get
any-heads p [] name c l h = absurd (cc)
any-heads p ((k, []) ∷ groups) name c l h = ground (arith, any-heads p groups name c)
any-heads p ((k, x ∷ xs) ∷ groups) name c l h = ground (arith, any-heads p groups name c)

any-take :
    (p : Choice → Bool) (n : ℕ) (xs ys : List Choice)
    → length xs ≤ n
    → any p xs ≡ true
    → any p (take n (xs ++ ys)) ≡ true
unfolding take
any-take p n [] ys l h = absurd (cc)
any-take p zero (x ∷ xs) ys l h = absurd (omega (arith, l))
any-take p (suc n) (x ∷ xs) ys l h = ground (arith, any-take p n xs ys)

length-heads-names :
    (ranked : List Choice) → length (heads (group [] ranked)) ≤ length (names [] ranked)
length-heads-names ranked =
    subst (λ ks. length (heads (group [] ranked)) ≤ length ks) (keys-group [] ranked)
      (length-heads (group [] ranked))

-- Within as many attempts as there are providers in the ranking, the best choice of each is made.
pub any-take-spread :
    (p : Choice → Bool) (n : ℕ) (ranked : List Choice) (name : String) (c : Choice)
    → length (names [] ranked) ≤ n
    → first_of name ranked ≡ some c
    → p c ≡ true
    → any p (take n (spread ranked)) ≡ true
unfolding spread rounds Dict.get
any-take-spread p n [] name c l f h = absurd (cc)
any-take-spread p n (x ∷ xs) name c l f h =
    any-take p n (heads (group [] (x ∷ xs))) _ (omega (arith, l, length-heads-names (x ∷ xs)))
      (any-heads p (group [] (x ∷ xs)) name c (leads-group [] (x ∷ xs) name ∙ f) h)
