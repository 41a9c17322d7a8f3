-- ===== src/Executor/Inert.antt =====
-- What never reaches a handler (core/src/garis/runtime/executor.py). That the handler is not called is
-- said by the equality of the whole outcome under any two handlers.
use garis.Base.{Bool, true, false, none, some, ◌≡◌, ◌≢◌, refl, Option-cases, Bool-cases, inl, inr}
use garis.Dict
use garis.Actions.{Effect, has, Params, Action, ToolSpec, supported_here, validate}
use garis.Policy.{Decision, allow, confirm, deny, Verdict, evaluate, non_negotiable_confirm}
use garis.Policy.Gates.{evaluate_non_negotiable}
use garis.Approvals.{
  Broker, ApprovalRequest, Answer, returned, missing, duplicate, request, granted_for, denied_for,
}
use garis.Executor.{
  Runtime, Setting, Draw, Handler, Performed, result, require_approval, perform, decide,
  after_approval, awaiting, ask_of,
}

-- the verdict that `perform` reaches
abbrev pub verdict_of : Setting → ToolSpec → Action → Verdict
verdict_of s spec action = evaluate s.norm s.repr s.paths s.config spec action

abbrev pub is_result : Performed → Bool
is_result (result r) = true
is_result _ = false

module _ (s : Setting) (h h' : Handler) where
  -- The two handlers lead to one outcome, which is no result.
  abbrev pub Untouched : Performed × Runtime → Performed × Runtime → Type 0
  Untouched x y = (x ≡ y) × (is_result x.0 ≡ false)

  asked :
      (rt : Runtime) (action : Action) (spec : ToolSpec) (v : Verdict) (d : Draw)
      (a : Answer ApprovalRequest × Broker)
      → Untouched
          (after_approval s h action spec v d (awaiting rt action v a))
          (after_approval s h' action spec v d (awaiting rt action v a))
  asked rt action spec v d (returned r, b) = (refl, refl)
  asked rt action spec v d (missing, b) = (refl, refl)
  asked rt action spec v d (duplicate, b) = (refl, refl)

  held :
      (rt : Runtime) (action : Action) (spec : ToolSpec) (v : Verdict) (d : Draw)
      → granted_for rt.broker (s.fingerprint action) ≡ none
      → Untouched
          (after_approval s h action spec v d (require_approval s rt action spec v d))
          (after_approval s h' action spec v d (require_approval s rt action spec v d))
  unfolding require_approval
  held rt action spec v d g = elim (Option-cases (denied_for rt.broker (s.fingerprint action))) [
    | inr (r, e) ↦ rw e (refl, refl)
    | inl e ↦
        rw (e, g)
          (asked rt action spec v d (request rt.broker (ask_of s action spec) d.approval_id d.now))
  ]

  decide_untouched :
      (rt : Runtime) (action : Action) (spec : ToolSpec) (v : Verdict) (d : Draw) (dec : Decision)
      → dec ≢ allow
      → (dec ≡ confirm → granted_for rt.broker (s.fingerprint action) ≡ none)
      → Untouched (decide s h rt action spec v d dec) (decide s h' rt action spec v d dec)
  decide_untouched rt action spec v d deny n g = (refl, refl)
  decide_untouched rt action spec v d confirm n g = held rt action spec v d (g refl)
  decide_untouched rt action spec v d allow n g = absurd (n refl)

  -- An action that the policy refuses, or holds while no unspent yes for this very operation is on
  -- file, ends by raising, in the same way and in the same state whatever its handler would do.
  pub perform_untouched :
      (rt : Runtime) (action : Action) (d : Draw) (spec : ToolSpec) (params : Params)
      → Dict.get s.registry action.tool ≡ some spec
      → supported_here spec s.platform ≡ true
      → validate spec action.params ≡ some params
      → (verdict_of s spec (record action { params = params })).decision ≢ allow
      → ((verdict_of s spec (record action { params = params })).decision ≡ confirm
          → granted_for rt.broker (s.fingerprint (record action { params = params })) ≡ none)
      → Untouched (perform s h rt action d) (perform s h' rt action d)
  unfolding perform
  perform_untouched rt action d spec params r p v n g =
      let checked = record action { params = params } in
      rw (r, p, v)
        (decide_untouched rt checked spec (verdict_of s spec checked) d
          (verdict_of s spec checked).decision n g)

  -- Whatever the configuration says, a tool that pays, publishes, sends a message, touches credentials
  -- or deletes permanently is not run while no unspent yes is on file for this very operation, the
  -- action with its checked parameters: `perform` ends in the same way and in the same state whatever
  -- the handler would do. A yes for other parameters does not help.
  pub perform_non_negotiable :
      (rt : Runtime) (action : Action) (d : Draw) (spec : ToolSpec) (e : Effect)
      → Dict.get s.registry action.tool ≡ some spec
      → has e non_negotiable_confirm ≡ true
      → has e spec.effects ≡ true
      → ((params : Params)
          → validate spec action.params ≡ some params
          → granted_for rt.broker (s.fingerprint (record action { params = params })) ≡ none)
      → perform s h rt action d ≡ perform s h' rt action d
  unfolding perform
  perform_non_negotiable rt action d spec e r n q g =
      elim (Bool-cases (supported_here spec s.platform)) [
        | inr p ↦ rw (r, p)
        | inl p ↦ elim (Option-cases (validate spec action.params)) [
          | inl v ↦ rw (r, p, v)
          | inr (params, v) ↦
              (perform_untouched rt action d spec params r p v
                (evaluate_non_negotiable s.norm s.repr s.paths s.config spec
                  (record action { params = params }) e n q)
                (λ _. g params v)).0
        ]
      ]
