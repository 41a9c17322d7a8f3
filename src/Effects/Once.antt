-- ===== src/Effects/Once.antt =====
-- An effect is granted at most once, whatever happens to it afterwards
-- (core/src/garis/kernel/effects.py).
use garis.Base.{
  ℕ, ◌+◌, ◌≤◌, ◌≡◌, refl, ◌∙◌, String, Bool, true, false, ◌&&◌, List, [], ◌∷◌, arith, ◌==◌, eq_iff,
  if◌then◌else◌, keep, ◌≢◌, Option, some, none, Option-cases, inl, inr, Bool-cases,
}
use mathlib.Core.Option
use garis.Rows
use garis.Rows.{find-update, find-insert}
use garis.Contracts.{invalid_input}
use garis.Effects.{
  EffectState, EffectRecord, EffectRows, key, Reserved, answer, raised, reserve, new_row, settle,
  settled_row, complete, mark_uncertain, mark_all, sweep_unsettled, is_stranded, lost,
}

-- One call on the store. A sweep is what a restart does.
pub data Call (Args : Type 0) : Type 0 where
  reserves : String → String → String → String → Args → ℕ → Call Args
  completes : String → Bool → Option String → String → String → ℕ → Call Args
  marks_uncertain : String → String → ℕ → Call Args
  sweeps : ℕ → ℕ → Call Args

abbrev pub is_granted : Reserved → Bool
is_granted (answer r) = r.granted
is_granted (raised f) = false

-- The identity of an effect: what a settlement does not touch.
abbrev pub identity : EffectRecord → String × String
identity r = (r.capability_id, r.arguments_hash)

find-settle :
    (rows : EffectRows) (e j reason evidence : String) (state : EffectState)
    (outcome : Option String) (now : ℕ)
    → Option.map identity (Rows.find key (settle rows e state outcome evidence reason now) j)
      ≡ Option.map identity (Rows.find key rows j)
unfolding settle
find-settle rows e j reason evidence state outcome now =
    rw (find-update key rows e j (settled_row state outcome evidence reason now) (λ r. refl))
      (go (Rows.find key rows j) (e == j))
  where
    go :
        (o : Option EffectRecord) (b : Bool)
        → Option.map identity
            (if b then Option.map (settled_row state outcome evidence reason now) o else o)
          ≡ Option.map identity o
    go none true = refl
    go none false = refl
    go (some r) true = refl
    go (some r) false = refl

find-mark_all :
    (rows stranded : EffectRows) (now : ℕ) (j : String)
    → Option.map identity (Rows.find key (mark_all rows stranded now) j)
      ≡ Option.map identity (Rows.find key rows j)
unfolding mark_all
find-mark_all rows [] now j = refl
find-mark_all rows (r ∷ stranded) now j =
    find-mark_all (mark_uncertain rows r.effect_id lost now) stranded now j
    ∙ find-settle rows r.effect_id j lost "[]" EffectState.uncertain none now

module _ {Args : Type 0} (hash : Args → String) where
  unfoldable pub call : EffectRows → Call Args → EffectRows
  call rows (reserves e c t s args now) = (reserve hash rows e c t s args now).1
  call rows (completes e ok outcome evidence reason now) =
      complete rows e ok outcome evidence reason now
  call rows (marks_uncertain e reason now) = mark_uncertain rows e reason now
  call rows (sweeps cutoff now) = (sweep_unsettled rows cutoff now).1

  -- does this call grant the effect `e`
  abbrev pub grants : String → EffectRows → Call Args → Bool
  grants e rows (reserves e' c t s args now) =
      e' == e && is_granted (reserve hash rows e' c t s args now).0
  grants e rows _ = false

  unfoldable pub run : EffectRows → List (Call Args) → EffectRows
  unfolding call
  run rows [] = rows
  run rows (x ∷ calls) = run (call rows x) calls

  -- how often the calls grant the effect
  unfoldable pub grant_count : String → EffectRows → List (Call Args) → ℕ
  unfolding call
  grant_count e rows [] = 0
  grant_count e rows (x ∷ calls) =
      let rest = grant_count e (call rows x) calls in if grants e rows x then rest + 1 else rest

  find-reserve :
      (rows : EffectRows) (e c t s j : String) (args : Args) (now : ℕ) (i : String × String)
      → Option.map identity (Rows.find key rows j) ≡ some i
      → Option.map identity (Rows.find key (reserve hash rows e c t s args now).1 j) ≡ some i
  unfolding reserve
  find-reserve rows e c t s j args now i f =
      ground (arith, find-insert key rows (new_row hash e c t s args now) j)

  -- A known effect keeps its identity through every call.
  pub call-identity :
      (rows : EffectRows) (x : Call Args) (j : String) (i : String × String)
      → Option.map identity (Rows.find key rows j) ≡ some i
      → Option.map identity (Rows.find key (call rows x) j) ≡ some i
  unfolding call complete mark_uncertain sweep_unsettled
  call-identity rows (reserves e c t s args now) j i f = find-reserve rows e c t s j args now i f
  call-identity rows (completes e ok outcome evidence reason now) j i f =
      find-settle rows e j reason evidence _ outcome now ∙ f
  call-identity rows (marks_uncertain e reason now) j i f =
      find-settle rows e j reason "[]" _ none now ∙ f
  call-identity rows (sweeps cutoff now) j i f =
      find-mark_all rows (keep (is_stranded cutoff) rows) now j ∙ f

  not_granted :
      (rows : EffectRows) (x : Call Args) (e : String) (i : String × String)
      → Option.map identity (Rows.find key rows e) ≡ some i
      → grants e rows x ≡ false
  unfolding reserve
  not_granted rows (reserves e' c t s args now) e i f = ground (arith, eq_iff e' e)
  not_granted rows (completes e' ok outcome evidence reason now) e i f = refl
  not_granted rows (marks_uncertain e' reason now) e i f = refl
  not_granted rows (sweeps cutoff now) e i f = refl

  never_again :
      (rows : EffectRows) (calls : List (Call Args)) (e : String) (i : String × String)
      → Option.map identity (Rows.find key rows e) ≡ some i
      → grant_count e rows calls ≡ 0
  unfolding grant_count
  never_again rows [] e i f = refl
  never_again rows (x ∷ calls) e i f = ground (
    arith,
    not_granted rows x e i f,
    never_again (call rows x) calls e i (call-identity rows x e i f),
  )

  granted_identity :
      (rows : EffectRows) (e c t s : String) (args : Args) (now : ℕ)
      → is_granted (reserve hash rows e c t s args now).0 ≡ true
      → Option.map identity (Rows.find key (reserve hash rows e c t s args now).1 e)
        ≡ some (c, hash args)
  unfolding reserve
  granted_identity rows e c t s args now g =
      ground (arith, eq_iff e e, find-insert key rows (new_row hash e c t s args now) e)

  granted_known :
      (rows : EffectRows) (x : Call Args) (e : String)
      → grants e rows x ≡ true
      → (i : String × String) × (Option.map identity (Rows.find key (call rows x) e) ≡ some i)
  unfolding call reserve
  granted_known rows (reserves e' c t s args now) e g = (
    (c, hash args),
    ground (arith, eq_iff e' e, find-insert key rows (new_row hash e' c t s args now) e),
  )
  granted_known rows (completes e' ok outcome evidence reason now) e g = absurd (cc)
  granted_known rows (marks_uncertain e' reason now) e g = absurd (cc)
  granted_known rows (sweeps cutoff now) e g = absurd (cc)

  -- However reservations, settlements and the sweeps of restarts follow one another, the right to
  -- perform one effect is granted at most once.
  pub grant_count-le-one :
      (rows : EffectRows) (calls : List (Call Args)) (e : String) → grant_count e rows calls ≤ 1
  unfolding grant_count
  grant_count-le-one rows [] e = omega arith
  grant_count-le-one rows (x ∷ calls) e = elim (Bool-cases (grants e rows x)) [
    | inl g ↦
        let (i, f) = granted_known rows x e g in
        ground (arith, g, never_again (call rows x) calls e i f)
    | inr g ↦ ground (arith, g, grant_count-le-one (call rows x) calls e)
  ]

  run-identity :
      (rows : EffectRows) (calls : List (Call Args)) (e : String) (i : String × String)
      → Option.map identity (Rows.find key rows e) ≡ some i
      → Option.map identity (Rows.find key (run rows calls) e) ≡ some i
  unfolding run
  run-identity rows [] e i f = f
  run-identity rows (x ∷ calls) e i f =
      run-identity (call rows x) calls e i (call-identity rows x e i f)

  reserve_known :
      (rows : EffectRows) (e c t s : String) (args : Args) (now : ℕ) (i : String × String)
      → Option.map identity (Rows.find key rows e) ≡ some i
      → i.1 ≢ ""
      → i.1 ≢ hash args
      → reserve hash rows e c t s args now ≡ (raised invalid_input, rows)
  unfolding reserve
  reserve_known rows e c t s args now i f n d = elim (Option-cases (Rows.find key rows e)) [
    | inl p ↦ absurd (ground arith)
    | inr (r, p) ↦
        rw p (ground (arith, eq_iff r.arguments_hash "", eq_iff r.arguments_hash (hash args)))
  ]

  -- Once an effect was granted with some arguments, a later reservation of the same id whose
  -- arguments have another fingerprint is refused as invalid input and changes no row, whatever calls
  -- came between (the fingerprint of the first arguments being no empty text).
  pub other_arguments_refused :
      (rows : EffectRows) (calls : List (Call Args)) (e c t s c' t' s' : String) (args args' : Args)
      (now later : ℕ)
      → is_granted (reserve hash rows e c t s args now).0 ≡ true
      → hash args ≢ ""
      → hash args ≢ hash args'
      → reserve hash (run rows (reserves e c t s args now ∷ calls)) e c' t' s' args' later
        ≡ (raised invalid_input, run rows (reserves e c t s args now ∷ calls))
  unfolding run call
  other_arguments_refused rows calls e c t s c' t' s' args args' now later g n d =
      let rows' = (reserve hash rows e c t s args now).1 in
      reserve_known (run rows' calls) e c' t' s' args' later (c, hash args)
        (run-identity rows' calls e (c, hash args) (granted_identity rows e c t s args now g)) n d
