-- ===== src/Executor/Gate.antt =====
-- One yes authorises one execution (core/src/garis/runtime/executor.py `_require_approval`,
-- approvals.py).
use garis.Base.{
  ℕ, ◌+◌, ◌≤◌, String, Bool, true, false, Option, none, some, List, [], ◌∷◌, ◌≡◌, refl, ap, sym,
  ◌∙◌, arith, ◌==◌, eq_iff, count, count-append, ◌&&◌, if◌then◌else◌, Option-cases, inl, inr,
  Bool-cases,
}
use garis.Rows
use garis.Actions.{Action, ToolSpec}
use garis.Policy.{Verdict}
use garis.Approvals.{
  Broker, ApprovalRequest, Answer, returned, missing, duplicate, Ask, key, usable_for, resolved,
  spent, new_request, request, resolve, consume, expire_older_than, granted_for, denied_for, latest,
  waits_for, resolution_time,
}
use garis.Approvals.Counts.{
  latest-spent, count-update-le, count-update-le-add, count-update_away, count-expire-le,
  expire-IsKeyed,
}
use garis.Approvals.Pending.{Call, requests, resolves, consumes, expires, call}
use garis.Executor.{Runtime, Setting, Draw, Raised, require_approval, awaiting, ask_of}

-- how many unspent yeses for the operation are on file
abbrev pub usable : String → Broker → ℕ
usable fingerprint b = count (usable_for fingerprint) b.rows

abbrev pub Keyed : Broker → Type 0
Keyed b = Rows.IsKeyed key b.rows

abbrev yes_to : String → Option ApprovalRequest → ℕ
yes_to f none = 0
yes_to f (some r) = if r.fingerprint == f then 1 else 0

-- does the call say yes to the operation
abbrev pub yes_of : String → Broker → Call → ℕ
yes_of f b (resolves id true by now) = yes_to f (Rows.find key b.rows id)
yes_of f b _ = 0

usable-request :
    (b : Broker) (a : Ask) (id f : String) (now : ℕ) → usable f (request b a id now).1 ≤ usable f b
unfolding request
usable-request b a id f now =
    ground (arith, count-append (usable_for f) b.rows (new_request a id now ∷ []))

request-Keyed :
    (b : Broker) (a : Ask) (id : String) (now : ℕ) → Keyed b → Keyed (request b a id now).1
unfolding request
request-Keyed b a id now h =
    elim (Option-cases (latest (waits_for a.fingerprint) (λ r. r.requested_at) b.rows)) [
      | inr (x, e) ↦ rw e h
      | inl e ↦ elim (Option-cases (Rows.find key b.rows id)) [
        | inr (x, g) ↦ rw (e, g) h
        | inl g ↦ rw (e, g) (Rows.insert-IsKeyed key b.rows (new_request a id now) h g)
      ]
    ]

usable-resolve :
    (b : Broker) (id by f : String) (yes' : Bool) (now : ℕ)
    → Keyed b
    → usable f (resolve b id yes' by now).1 ≤ usable f b + yes_of f b (resolves id yes' by now)
unfolding resolve
usable-resolve b id by f false now h = ground (
  arith,
  count-update-le (usable_for f) b.rows id (resolved false now by) (λ r p. absurd (ground arith)),
)
usable-resolve b id by f true now h = elim (Option-cases (Rows.find key b.rows id)) [
  | inl e ↦ ground (arith, e)
  | inr (r, e) ↦ ground (
    arith,
    e,
    count-update-le-add (usable_for f) b.rows id (resolved true now by) h,
    count-update_away (usable_for f) b.rows id (resolved true now by) r h,
  )
]

resolve-Keyed :
    (b : Broker) (id by : String) (yes' : Bool) (now : ℕ)
    → Keyed b
    → Keyed (resolve b id yes' by now).1
unfolding resolve
resolve-Keyed b id by yes' now h = elim (Option-cases (Rows.find key b.rows id)) [
  | inl e ↦ rw e h
  | inr (r, e) ↦ rw e (Rows.update-IsKeyed key b.rows id (resolved yes' now by) (λ x. refl) h)
]

usable-call :
    (b : Broker) (c : Call) (f : String) → Keyed b → usable f (call b c) ≤ usable f b + yes_of f b c
unfolding call consume expire_older_than
usable-call b (requests a id now) f h = omega (arith, usable-request b a id f now)
usable-call b (resolves id yes' by now) f h = usable-resolve b id by f yes' now h
usable-call b (consumes id) f h =
    omega (arith, count-update-le (usable_for f) b.rows id spent (λ r p. absurd (ground arith)))
usable-call b (expires cutoff) f h =
    omega (arith, count-expire-le (usable_for f) b.rows cutoff (λ r p. ground arith))

call-Keyed : (b : Broker) (c : Call) → Keyed b → Keyed (call b c)
unfolding call consume expire_older_than
call-Keyed b (requests a id now) h = request-Keyed b a id now h
call-Keyed b (resolves id yes' by now) h = resolve-Keyed b id by yes' now h
call-Keyed b (consumes id) h = Rows.update-IsKeyed key b.rows id spent (λ x. refl) h
call-Keyed b (expires cutoff) h = expire-IsKeyed b.rows cutoff h

-- One event in the life of the approvals: a call on the broker, or an action at the gate.
pub data Happening : Type 0 where
  calls : Call → Happening
  at_gate : Action → ToolSpec → Verdict → Draw → Happening

abbrev is_passed : Option Raised → Bool
is_passed none = true
is_passed (some r) = false

module _ (s : Setting) where
  unfoldable pub happen : Runtime → Happening → Runtime
  happen rt (calls c) = record rt { broker = call rt.broker c }
  happen rt (at_gate action spec v d) = (require_approval s rt action spec v d).1

  -- does the operation pass the gate here
  abbrev pub passes : String → Runtime → Happening → Bool
  passes f rt (calls c) = false
  passes f rt (at_gate action spec v d) =
      s.fingerprint action == f && is_passed (require_approval s rt action spec v d).0

  unfoldable pub pass_count : String → Runtime → List Happening → ℕ
  unfolding happen
  pass_count f rt [] = 0
  pass_count f rt (x ∷ xs) =
      let rest = pass_count f (happen rt x) xs in if passes f rt x then rest + 1 else rest

  abbrev yes_at : String → Runtime → Happening → ℕ
  yes_at f rt (calls c) = yes_of f rt.broker c
  yes_at f rt (at_gate action spec v d) = 0

  unfoldable pub yes_count : String → Runtime → List Happening → ℕ
  unfolding happen
  yes_count f rt [] = 0
  yes_count f rt (x ∷ xs) = yes_at f rt x + yes_count f (happen rt x) xs

  awaiting_broker :
      (rt : Runtime) (action : Action) (v : Verdict) (a : Answer ApprovalRequest × Broker)
      → ((awaiting rt action v a).1.broker ≡ a.1) × (is_passed (awaiting rt action v a).0 ≡ false)
  awaiting_broker rt action v (returned r, b) = (refl, refl)
  awaiting_broker rt action v (missing, b) = (refl, refl)
  awaiting_broker rt action v (duplicate, b) = (refl, refl)

  refused_spent :
      (rows : List ApprovalRequest) (r : ApprovalRequest) (f : String)
      → count (usable_for f) (Rows.update key rows r.id spent) ≤ count (usable_for f) rows
  refused_spent rows r f =
      count-update-le (usable_for f) rows r.id spent (λ x p. absurd (ground arith))

  granted_spent :
      (b : Broker) (g f : String) (r : ApprovalRequest)
      → granted_for b g ≡ some r
      → (if g == f then 1 else 0) + usable f (consume b r.id) ≤ usable f b
  unfolding granted_for consume
  granted_spent b g f r e = elim (Bool-cases (g == f)) [
    | inl q ↦ rw q (
        omega (
          arith,
          latest-spent f resolution_time b.rows r
              (ap (λ x. latest (usable_for x) resolution_time b.rows) (sym ((eq_iff g f).0 q)) ∙ e),
        ))
    | inr q ↦ rw q (omega (arith, refused_spent b.rows r f))
  ]

  gate_spends :
      (rt : Runtime) (action : Action) (spec : ToolSpec) (v : Verdict) (d : Draw) (f : String)
      → (if passes f rt (at_gate action spec v d) then 1 else 0)
          + usable f (require_approval s rt action spec v d).1.broker
        ≤ usable f rt.broker
  unfolding require_approval
  gate_spends rt action spec v d f =
      let fp = s.fingerprint action in
      let ask = request rt.broker (ask_of s action spec) d.approval_id d.now in
      elim (Option-cases (denied_for rt.broker fp)) [
        | inr (r, e) ↦ rw e (unfold consume in ground (arith, refused_spent rt.broker.rows r f))
        | inl e ↦ elim (Option-cases (granted_for rt.broker fp)) [
          | inr (r, g) ↦ rw (e, g) (ground (arith, granted_spent rt.broker fp f r g))
          | inl g ↦
              rw (e, g, (awaiting_broker rt action v ask).0, (awaiting_broker rt action v ask).1)
                (ground
                  (arith, usable-request rt.broker (ask_of s action spec) d.approval_id f d.now))
        ]
      ]

  gate-Keyed :
      (rt : Runtime) (action : Action) (spec : ToolSpec) (v : Verdict) (d : Draw)
      → Keyed rt.broker
      → Keyed (require_approval s rt action spec v d).1.broker
  unfolding require_approval consume
  gate-Keyed rt action spec v d h =
      let fp = s.fingerprint action in
      let ask = request rt.broker (ask_of s action spec) d.approval_id d.now in
      elim (Option-cases (denied_for rt.broker fp)) [
        | inr (r, e) ↦ rw e (Rows.update-IsKeyed key rt.broker.rows r.id spent (λ x. refl) h)
        | inl e ↦ elim (Option-cases (granted_for rt.broker fp)) [
          | inr (r, g) ↦ rw (e, g) (Rows.update-IsKeyed key rt.broker.rows r.id spent (λ x. refl) h)
          | inl g ↦
              rw (e, g, (awaiting_broker rt action v ask).0)
                (request-Keyed rt.broker (ask_of s action spec) d.approval_id d.now h)
        ]
      ]

  -- However questions, answers, expiries and actions at the gate follow one another, an operation
  -- passes the gate at most as often as there were unspent yeses for it at the start and yeses said to
  -- it since: one yes is good for one execution (ids of rows being unique, as the primary key keeps
  -- them).
  pub pass_count-le :
      (f : String) (rt : Runtime) (xs : List Happening)
      → Keyed rt.broker
      → pass_count f rt xs ≤ usable f rt.broker + yes_count f rt xs
  unfolding pass_count yes_count
  pass_count-le f rt [] h = omega arith
  pass_count-le f rt (calls c ∷ xs) h = ground (
    arith,
    pass_count-le f (happen rt (calls c)) xs (call-Keyed rt.broker c h),
    usable-call rt.broker c f h,
  )
  pass_count-le f rt (at_gate action spec v d ∷ xs) h = ground (
    arith,
    pass_count-le f (happen rt (at_gate action spec v d)) xs (gate-Keyed rt action spec v d h),
    gate_spends rt action spec v d f,
  )
