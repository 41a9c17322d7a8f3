-- ===== src/Notifications/Duplicates.antt =====
-- One notice about one thing (core/src/garis/notifications.py, `consider`).
use garis.Base.{
  ℕ, zero, suc, ◌+◌, ◌≤◌, ◌<◌, String, Bool, true, false, Option, none, some, List, [], ◌∷◌, any,
  length, ◌≡◌, ◌∙◌, refl, ap, arith, eq_iff, Bool-cases, inl, inr,
}
use garis.Notifications.{
  Notice, NotificationGate, Verdict, deliver, hold, drop, first, push, same_notice, is_duplicate,
  decide, settled, noted, consider, speak, dedupe_window_seconds,
}

first-first : {A : Type 0} → (k n : ℕ) (xs : List A) → k ≤ n → first k (first n xs) ≡ first k xs
unfolding first
first-first zero n xs h = refl
first-first (suc k) zero xs h = absurd (omega (arith, h))
first-first (suc k) (suc n) [] h = refl
first-first (suc k) (suc n) (x ∷ xs) h = ap (λ ys. x ∷ ys) (first-first k n xs (omega (arith, h)))

module _ {A : Type 0} (p : A → Bool) where
  any-first : (k : ℕ) (xs : List A) → any p (first k xs) ≡ true → any p xs ≡ true
  unfolding first
  any-first zero xs h = absurd (cc)
  any-first (suc k) [] h = absurd (cc)
  any-first (suc k) (x ∷ xs) h = ground (arith, any-first k xs)

  any-first-suc :
      (k : ℕ) (xs : List A) → any p (first k xs) ≡ true → any p (first (suc k) xs) ≡ true
  unfolding first
  any-first-suc zero xs h = absurd (cc)
  any-first-suc (suc k) [] h = absurd (cc)
  any-first-suc (suc k) (x ∷ xs) h = ground (arith, any-first-suc k xs)

  -- what is among the first of a deque is among one more after an entry is put in front
  any-first-push :
      (k n : ℕ) (x : A) (xs : List A)
      → k < n
      → any p (first k xs) ≡ true
      → any p (first (suc k) (push n x xs)) ≡ true
  unfolding first
  any-first-push k n x xs l h =
      let same : first (suc k) (push n x xs) ≡ x ∷ first k xs =
        first-first (suc k) n (x ∷ xs) (omega (arith, l)) in
      ap (any p) same ∙ ground (arith, h)

module _ (read_clock : String → Option (ℕ × ℕ)) (fingerprint : Notice → String) where
  unfoldable pub run : List (Notice × ℕ) → NotificationGate → NotificationGate
  run [] g = g
  run ((n, time) ∷ ns) g = run ns (consider read_clock fingerprint n time g).1

  module _ (p : ℕ × String → Bool) where
    abbrev Remembers : ℕ → NotificationGate → Type 0
    Remembers k g = any p (first k g.recent) ≡ true

    recent-speak : (n : Notice) (g : NotificationGate) → (speak n g).recent ≡ g.recent
    recent-speak n g = elim (Bool-cases g.has_bus) [ inl e ↦ rw e refl | inr e ↦ rw e refl ]

    settled-Remembers :
        (k : ℕ) (v : Option Verdict) (n : Notice) (g : NotificationGate)
        → k < 64
        → Remembers k g
        → Remembers (suc k) (settled read_clock fingerprint v n g)
    settled-Remembers k none n g l h = any-first-suc p k g.recent h
    settled-Remembers k (some drop) n g l h = any-first-suc p k g.recent h
    settled-Remembers k (some hold) n g l h =
        any-first-push p k 64 (n.at, fingerprint n) g.recent l h
    settled-Remembers k (some deliver) n g l h =
        let next = record (noted read_clock fingerprint n g) {
          delivered_at = push 256 n.at g.delivered_at;
        } in
        ap (λ xs. any p (first (suc k) xs)) (recent-speak n next)
        ∙ any-first-push p k 64 (n.at, fingerprint n) g.recent l h

    run-Remembers :
        (k : ℕ) (ns : List (Notice × ℕ)) (g : NotificationGate)
        → k + length ns ≤ 64
        → Remembers k g
        → any p (run ns g).recent ≡ true
    unfolding run consider
    run-Remembers k [] g l h = any-first p k g.recent h
    run-Remembers k ((n, time) ∷ ns) g l h =
        run-Remembers (suc k) ns (consider read_clock fingerprint n time g).1 (omega (arith, l))
          (settled-Remembers k (decide read_clock fingerprint g n time) n g (omega (arith, l)) h)

  abbrev pub is_noted : Option Verdict → Bool
  is_noted (some deliver) = true
  is_noted (some hold) = true
  is_noted _ = false

  noted-Remembers :
      (p : ℕ × String → Bool) (v : Option Verdict) (n : Notice) (g : NotificationGate)
      → is_noted v ≡ true
      → p (n.at, fingerprint n) ≡ true
      → Remembers p 1 (settled read_clock fingerprint v n g)
  unfolding first
  noted-Remembers p none n g h q = absurd (cc)
  noted-Remembers p (some drop) n g h q = absurd (cc)
  noted-Remembers p (some hold) n g h q = rw q refl
  noted-Remembers p (some deliver) n g h q =
      let next = record (noted read_clock fingerprint n g) {
        delivered_at = push 256 n.at g.delivered_at;
      } in
      ap (λ xs. any p (first 1 xs)) (recent-speak p n next) ∙ rw q refl

  -- After a notice that was delivered or held, a notice with the same fingerprint that comes at most a
  -- quarter of an hour later is dropped, if fewer than 64 notices were considered in between.
  pub consider_duplicate :
      (n again : Notice) (time later : ℕ) (between : List (Notice × ℕ)) (g : NotificationGate)
      → is_noted (consider read_clock fingerprint n time g).0 ≡ true
      → fingerprint again ≡ fingerprint n
      → again.at ≤ n.at + dedupe_window_seconds
      → length between < 64
      → (consider read_clock fingerprint again later
          (run between (consider read_clock fingerprint n time g).1)).0
        ≡ some drop
  unfolding consider decide is_duplicate
  consider_duplicate n again time later between g noted_it same near few =
      let p = same_notice again.at (fingerprint again) in
      let v = decide read_clock fingerprint g n time in
      let matches : p (n.at, fingerprint n) ≡ true =
        ground (arith, near, same, eq_iff (fingerprint n) (fingerprint again)) in
      let seen : any p (run between (settled read_clock fingerprint v n g)).recent ≡ true =
        run-Remembers p 1 between (settled read_clock fingerprint v n g) (omega (arith, few))
          (noted-Remembers p v n g noted_it matches) in
      rw seen refl
