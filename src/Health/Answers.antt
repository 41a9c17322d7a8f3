-- ===== src/Health/Answers.antt =====
-- What an answer of a provider means (core/src/garis/models/health.py).
use garis.Base.{
  ℕ, zero, suc, ◌+◌, String, Bool, Option, none, some, ◌≡◌, arith, leb, nat_eq, ◌&&◌, ◌||◌, ltb, ap,
  ◌∙◌, if◌then◌else◌,
}
use garis.Health.{usable_at, usable_in, reopens, is_ok, classify_response, found, retry_after_of}

-- the seconds that an answer 429 asks for: those that it names, else a minute
abbrev pub wait : Option ℕ → ℕ
wait none = 60
wait (some zero) = 60
wait (some (suc n)) = suc n

module _ (lower : String → String) (within : String → String → Bool)
    (digits : String → Option ℕ) where
  reopens-wait :
      (header : String) (now : ℕ)
      → reopens lower within digits header now ≡ now + wait (digits header)
  unfolding retry_after_of
  reopens-wait header now = by_seconds (digits header)
    where
      by_seconds :
          (o : Option ℕ)
          → (if nat_eq (elim o [ none ↦ 0 | some n ↦ n ]) 0
              then now + 60
              else now + elim o [ none ↦ 0 | some n ↦ n ])
            ≡ now + wait o
      by_seconds none = ground arith
      by_seconds (some zero) = ground arith
      by_seconds (some (suc n)) = ground arith

  pub classified_usable :
      (status : ℕ) (body header : String) (now later : ℕ)
      → (let f = classify_response lower within digits status body header now in
          usable_in f.status f.retry_after later)
        ≡ (is_ok status
            || (nat_eq status 429 && leb (reopens lower within digits header now) later))
  unfolding classify_response
  classified_usable status body header now later = ground arith

  -- An HTTP answer makes a provider usable exactly when its status is 200 to 299, whatever the body
  -- says, or when it was the limit 429 and the seconds that its header names, or 60 where that is no
  -- number or 0, are over since the answer.
  pub usable-classify_response :
      (name : String) (failures status : ℕ) (body header : String) (now later : ℕ)
      → usable_at
          (found name (classify_response lower within digits status body header now) now failures)
          later
        ≡ ((leb 200 status && ltb status 300)
            || (nat_eq status 429 && leb (now + wait (digits header)) later))
  unfolding usable_at
  usable-classify_response name failures status body header now later =
      classified_usable status body header now later
      ∙ ap (λ n. is_ok status || (nat_eq status 429 && leb n later)) (reopens-wait header now)
