-- ===== src/Policy/Gates.antt =====
-- When an action runs without a question (core/src/garis/runtime/policy.py).
use garis.Base.{
  ℕ, String, Bool, true, false, List, [], ◌∷◌, ◌&&◌, ◌≡◌, ◌≢◌, refl, arith, ◌≤◌, Option, some, none,
  contains, max, ◌↔◌,
}
use garis.Actions.{Effect, install, elevate, has, Value, Action, ToolSpec, estimates}
use garis.Policy.{
  allow, Verdict, AutonomyConfig, Paths, confirm_set, configured, gated, gates, denied_or, notices,
  hard_deny, evaluate, non_negotiable_confirm,
}
use garis.Policy.Effects.{gated_nil, gated_of_none, has-append, configured_mono}

-- What has to hold for an action to run without a question.
pub record RunsSilently (c : AutonomyConfig) (spec : ToolSpec) (action : Action) : Type 0 where
  pub no_gate : (e : Effect) → (has e (confirm_set c) && has e spec.effects) ≡ false
  pub tool_reversible : spec.reversible ≡ true
  pub action_reversible : action.reversible ≡ true
  pub tool_cost : (estimates spec action.params).1 ≤ c.spend_notice_amount
  pub action_cost : action.estimated_cost ≤ c.spend_notice_amount
  pub tool_bytes : (estimates spec action.params).0 ≤ c.download_notice_bytes
  pub action_bytes : action.estimated_bytes ≤ c.download_notice_bytes
  pub installs_auto : has install spec.effects ≡ true → c.auto_install_free_software ≡ true
  pub installs_trusted : has install spec.effects ≡ true → spec.trusted_source ≡ true
  pub installs_free :
      has install spec.effects ≡ true
      → ((estimates spec action.params).1 ≤ 0) × (action.estimated_cost ≤ 0)
  pub elevates : has elevate spec.effects ≡ true → c.allow_admin_elevation ≡ true

module _ (c : AutonomyConfig) (spec : ToolSpec) (b p b' p' : ℕ) (reversible : Bool) where
  silent_notices :
      (notices c spec (max b b') (max p p') reversible).decision ≡ allow
      → (spec.reversible ≡ true)
        × (reversible ≡ true)
        × (p ≤ c.spend_notice_amount)
        × (p' ≤ c.spend_notice_amount)
        × (b ≤ c.download_notice_bytes)
        × (b' ≤ c.download_notice_bytes)
        × (has install spec.effects ≡ true → c.auto_install_free_software ≡ true)
        × (has install spec.effects ≡ true → spec.trusted_source ≡ true)
        × (has install spec.effects ≡ true → (p ≤ 0) × (p' ≤ 0))
        × (has elevate spec.effects ≡ true → c.allow_admin_elevation ≡ true)
  unfolding notices
  silent_notices h = ground arith

  notices_silent :
      spec.reversible ≡ true
      → reversible ≡ true
      → p ≤ c.spend_notice_amount
      → p' ≤ c.spend_notice_amount
      → b ≤ c.download_notice_bytes
      → b' ≤ c.download_notice_bytes
      → (has install spec.effects ≡ true → c.auto_install_free_software ≡ true)
      → (has install spec.effects ≡ true → spec.trusted_source ≡ true)
      → (has install spec.effects ≡ true → (p ≤ 0) × (p' ≤ 0))
      → (has elevate spec.effects ≡ true → c.allow_admin_elevation ≡ true)
      → (notices c spec (max b b') (max p p') reversible).decision ≡ allow
  unfolding notices
  notices_silent s r tc ac tb ab ia it free el = ground arith

not_denied :
    (v : Verdict) (o : Option String)
    → (denied_or v o).decision ≡ allow
    → (o ≡ none) × (v.decision ≡ allow)
not_denied v none h = (refl, h)
not_denied v (some rule) h = absurd (ground arith)

module _ (norm : String → String) (repr : Value → String) (paths : Paths) (c : AutonomyConfig)
    (spec : ToolSpec) (action : Action) where
  silent_gates :
      (g : List Effect)
      → gated c spec.effects ≡ g
      → (gates c spec action g).decision ≡ allow
      → RunsSilently c spec action
  silent_gates (e ∷ g) p a = absurd (ground arith)
  silent_gates [] p a =
      let e = estimates spec action.params in
      let (s, r, tc, ac, tb, ab, ia, it, free, el) =
        silent_notices c spec e.0 e.1 action.estimated_bytes action.estimated_cost action.reversible
          a in
      record {
        no_gate = λ x. gated_nil c spec.effects x p;
        tool_reversible = s;
        action_reversible = r;
        tool_cost = tc;
        action_cost = ac;
        tool_bytes = tb;
        action_bytes = ab;
        installs_auto = ia;
        installs_trusted = it;
        installs_free = free;
        elevates = el;
      }

  silent_of_allow :
      (evaluate norm repr paths c spec action).decision ≡ allow
      → (hard_deny norm repr paths spec action ≡ none) × RunsSilently c spec action
  unfolding evaluate
  silent_of_allow h =
      let (d, g) =
        not_denied (gates c spec action (gated c spec.effects))
          (hard_deny norm repr paths spec action) h in
      (d, silent_gates (gated c spec.effects) refl g)

  allow_of_silent :
      (hard_deny norm repr paths spec action ≡ none) × RunsSilently c spec action
      → (evaluate norm repr paths c spec action).decision ≡ allow
  unfolding evaluate
  allow_of_silent (d, q) =
      rw (d, gated_of_none c spec.effects q.no_gate)
        (notices_silent c spec _ _ action.estimated_bytes action.estimated_cost action.reversible
          q.tool_reversible q.action_reversible q.tool_cost q.action_cost q.tool_bytes
          q.action_bytes q.installs_auto q.installs_trusted q.installs_free q.elevates)

  -- An action runs without a question exactly when it is not refused outright, no effect of its tool is
  -- in the set that wants a yes, tool and action are reversible, neither the estimate of the tool nor
  -- that of the action passes the notice limits, an installation is automatic, trusted and free, and
  -- elevation is allowed where it is needed.
  pub evaluate-allow_iff :
      ((evaluate norm repr paths c spec action).decision ≡ allow)
      ↔ ((hard_deny norm repr paths spec action ≡ none) × RunsSilently c spec action)
  evaluate-allow_iff = (silent_of_allow, allow_of_silent)

  -- Whatever the configuration says, a tool that pays, publishes, sends a message, touches credentials
  -- or deletes permanently never runs without a question.
  pub evaluate_non_negotiable :
      (e : Effect)
      → has e non_negotiable_confirm ≡ true
      → has e spec.effects ≡ true
      → (evaluate norm repr paths c spec action).decision ≢ allow
  evaluate_non_negotiable e n h a =
      unfold confirm_set in
      ground (
        arith,
        (silent_of_allow a).1.no_gate e,
        has-append e (configured c.confirm_effects) non_negotiable_confirm,
      )

fewer_gates :
    (c : AutonomyConfig) (names : List String) (effects : List Effect) (e : Effect)
    → ((name : String) → contains name c.confirm_effects ≡ true → contains name names ≡ true)
    → (has e (confirm_set (record c { confirm_effects = names })) && has e effects) ≡ false
    → (has e (confirm_set c) && has e effects) ≡ false
unfolding confirm_set
fewer_gates c names effects e more h = ground (
  arith,
  has-append e (configured c.confirm_effects) non_negotiable_confirm,
  has-append e (configured names) non_negotiable_confirm,
  configured_mono c.confirm_effects names e more,
)

-- More names in `confirm_effects` never let an action run that was held or refused with fewer.
pub evaluate-confirm_mono :
    (norm : String → String) (repr : Value → String) (paths : Paths) (c : AutonomyConfig)
    (spec : ToolSpec) (action : Action) (names : List String)
    → ((name : String) → contains name c.confirm_effects ≡ true → contains name names ≡ true)
    → (evaluate norm repr paths (record c { confirm_effects = names }) spec action).decision ≡ allow
    → (evaluate norm repr paths c spec action).decision ≡ allow
evaluate-confirm_mono norm repr paths c spec action names more a =
    let w = record c { confirm_effects = names } in
    let (d, q) = silent_of_allow norm repr paths w spec action a in
    allow_of_silent norm repr paths c spec action (
      d,
      record {
        no_gate = λ e. fewer_gates c names spec.effects e more (q.no_gate e);
        tool_reversible = q.tool_reversible;
        action_reversible = q.action_reversible;
        tool_cost = q.tool_cost;
        action_cost = q.action_cost;
        tool_bytes = q.tool_bytes;
        action_bytes = q.action_bytes;
        installs_auto = q.installs_auto;
        installs_trusted = q.installs_trusted;
        installs_free = q.installs_free;
        elevates = q.elevates;
      },
    )
