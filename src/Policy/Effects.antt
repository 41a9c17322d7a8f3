-- ===== src/Policy/Effects.antt =====
-- Sets of effects given as lists (core/src/garis/runtime/policy.py, action.py).
use garis.Base.{
  ℕ, zero, suc, String, Bool, true, false, List, [], ◌∷◌, ◌++◌, keep, ◌&&◌, ◌||◌, ◌≡◌, refl, arith,
  nat_eq, some, Option-cases, inl, inr, ap, ◌∙◌, sym, ◌==◌, contains, eq_iff, Bool-cases,
}
use garis.Actions.{Effect, read, rank, same, has, sorted_effects, parse_effect}
use garis.Policy.{configured, confirm_set, gated, AutonomyConfig}

abbrev nth_effect : List Effect → ℕ → Effect
nth_effect [] n = read
nth_effect (e ∷ es) zero = e
nth_effect (e ∷ es) (suc n) = nth_effect es n

unrank : (e : Effect) → nth_effect sorted_effects (rank e) ≡ e
unfolding rank
unrank read = refl
unrank _ = refl

rank_inj : (a b : Effect) → rank a ≡ rank b → a ≡ b
rank_inj a b h = sym (unrank a) ∙ (ap (nth_effect sorted_effects) h ∙ unrank b)

nat_eq-true : (m n : ℕ) → nat_eq m n ≡ true → m ≡ n
nat_eq-true m n h = ground arith

pub same-true : (a b : Effect) → same a b ≡ true → a ≡ b
unfolding same
same-true a b h = rank_inj a b (nat_eq-true (rank a) (rank b) h)

same_refl : (e : Effect) → same e e ≡ true
unfolding same
same_refl e = ground arith

every_effect : (e : Effect) → has e sorted_effects ≡ true
unfolding has same
every_effect read = refl
every_effect _ = refl

none_kept :
    (p : Effect → Bool) (xs : List Effect) (e : Effect)
    → keep p xs ≡ []
    → has e xs ≡ true
    → p e ≡ false
unfolding has
none_kept p [] e k h = absurd (cc)
none_kept p (x ∷ xs) e k h = elim (Bool-cases (same x e)) [
  | inl s ↦ rw (← same-true x e s) (ground arith)
  | inr s ↦ none_kept p xs e (ground arith) (ground arith)
]

all_dropped : (p : Effect → Bool) (xs : List Effect) → ((e : Effect) → p e ≡ false) → keep p xs ≡ []
all_dropped p [] n = refl
all_dropped p (x ∷ xs) n = ground (arith, n x, all_dropped p xs n)

-- The gated effects are none exactly when no effect of the tool is in the set that wants a yes.
pub gated_nil :
    (c : AutonomyConfig) (effects : List Effect) (e : Effect)
    → gated c effects ≡ []
    → (has e (confirm_set c) && has e effects) ≡ false
unfolding gated
gated_nil c effects e g =
    none_kept (λ x. has x (confirm_set c) && has x effects) sorted_effects e g (every_effect e)

pub gated_of_none :
    (c : AutonomyConfig) (effects : List Effect)
    → ((e : Effect) → (has e (confirm_set c) && has e effects) ≡ false)
    → gated c effects ≡ []
unfolding gated
gated_of_none c effects n =
    all_dropped (λ x. has x (confirm_set c) && has x effects) sorted_effects n

pub has-append : (e : Effect) (xs ys : List Effect) → has e (xs ++ ys) ≡ (has e xs || has e ys)
unfolding has
has-append e [] ys = refl
has-append e (x ∷ xs) ys = ground (arith, has-append e xs ys)

pub has-configured :
    (names : List String) (name : String) (e : Effect)
    → contains name names ≡ true
    → parse_effect name ≡ some e
    → has e (configured names) ≡ true
unfolding has configured
has-configured [] name e c p = absurd (cc)
has-configured (n ∷ names) name e c p = elim (Bool-cases (n == name)) [
  | inl s ↦
      let q : parse_effect n ≡ some e = ap parse_effect ((eq_iff n name).0 s) ∙ p in
      rw (q, same_refl e)
  | inr s ↦
      let ih = has-configured names name e (ground arith) p in
      elim (Option-cases (parse_effect n)) [
        | inl q ↦ rw q ih
        | inr (x, q) ↦ rw (q, ih) (ground arith)
      ]
]

-- An effect is in the configured set only by a name.
pub configured_mono :
    (names names' : List String) (e : Effect)
    → ((name : String) → contains name names ≡ true → contains name names' ≡ true)
    → has e (configured names) ≡ true
    → has e (configured names') ≡ true
unfolding has configured
configured_mono [] names' e sub h = absurd (cc)
configured_mono (n ∷ names) names' e sub h = elim (Option-cases (parse_effect n)) [
  | inl p ↦ configured_mono names names' e (λ j c. sub j (ground arith)) (ground arith)
  | inr (x, p) ↦ elim (Bool-cases (same x e)) [
    | inl s ↦
        has-configured names' n e (sub n (ground (arith, eq_iff n n)))
          (p ∙ ap some (same-true x e s))
    | inr s ↦ configured_mono names names' e (λ j c. sub j (ground arith)) (ground arith)
  ]
]
