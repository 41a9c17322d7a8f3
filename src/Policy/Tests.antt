-- ===== src/Policy/Tests.antt =====
-- The policy at concrete tools and actions.
use garis.Base.{
  ◌≡◌, ◌≢◌, ◌↔◌, refl, String, true, false, List, [], ◌∷◌, none, arith, contains, eq_iff,
}
use garis.Actions.{
  Effect, read, write, payment, has, rank, same, Value, text, items, nil, cons, Action, ToolSpec,
  estimates, parse_effect,
}
use garis.Policy.{
  allow, deny, verdict, AutonomyConfig, Paths, evaluate, hard_deny, is_protected, is_mutating,
  non_negotiable_confirm, confirm_set, configured, gated, notices,
}
use garis.Policy.Protected.{Touches, itself, in_items, first_item, first_param, evaluate_protected}
use garis.Policy.Gates.{
  RunsSilently, evaluate-allow_iff, evaluate_non_negotiable, evaluate-confirm_mono,
}

abbrev same_path : String → String
same_path p = p

abbrev no_text : Value → String
no_text v = ""

abbrev paths : Paths
paths = record { key_file = "/g/key"; vault_db = "/g/vault.db"; state_db = "/g/state.db" }

abbrev config : AutonomyConfig
config = record {
  auto_install_free_software = true;
  download_notice_bytes = 1000;
  spend_notice_amount = 0;
  allow_admin_elevation = false;
  confirm_effects = "remote" ∷ [];
}

abbrev tool_with : List Effect → ToolSpec
tool_with effects = record {
  name = "file_write";
  params = [];
  effects = effects;
  platforms = "*" ∷ [];
  category = "files";
  timeout = 60;
  reversible = true;
  trusted_source = false;
  resources = none;
  estimate = none;
}

abbrev on_file : Action
on_file = record {
  tool = "file_write";
  params = ("paths", items (cons (text "/g/key") nil)) ∷ [];
  intent = "";
  task_id = none;
  id = "a1";
  estimated_bytes = 0;
  estimated_cost = 0;
  reversible = true;
  target = "local";
}

evaluate-allow_iff_example :
    ((evaluate same_path no_text paths config (tool_with (read ∷ [])) on_file).decision ≡ allow) ↔ (
      (hard_deny same_path no_text paths (tool_with (read ∷ [])) on_file ≡ none)
      × RunsSilently config (tool_with (read ∷ [])) on_file)
evaluate-allow_iff_example =
    evaluate-allow_iff same_path no_text paths config (tool_with (read ∷ [])) on_file

pays : has payment non_negotiable_confirm ≡ true
unfolding has same rank
pays = refl

pays_by_tool : has payment (read ∷ payment ∷ []) ≡ true
unfolding has same rank
pays_by_tool = refl

evaluate_non_negotiable_example :
    (evaluate same_path no_text paths config (tool_with (read ∷ payment ∷ [])) on_file).decision
    ≢ allow
evaluate_non_negotiable_example =
    evaluate_non_negotiable same_path no_text paths config (tool_with (read ∷ payment ∷ [])) on_file
      payment pays pays_by_tool

key_protected : is_protected same_path paths "/g/key" ≡ true
unfolding is_protected
key_protected = refl

writes : is_mutating (write ∷ []) ≡ true
unfolding is_mutating has same rank
writes = refl

not_vault : ◌≢◌ {A = String} "files" "vault"
not_vault h = ground (arith, eq_iff "files" "vault")

evaluate_protected_example :
    (evaluate same_path no_text paths config (tool_with (write ∷ [])) on_file
      ≡ verdict deny "guardrails")
    ↔ Touches same_path paths (tool_with (write ∷ [])) on_file
evaluate_protected_example =
    evaluate_protected same_path no_text paths config (tool_with (write ∷ [])) on_file

key_touched : Touches same_path paths (tool_with (write ∷ [])) on_file
key_touched = record {
  mutates = writes;
  no_vault_tool = not_vault;
  path = "/g/key";
  inside = first_param (in_items (first_item (itself refl)));
  guarded = key_protected;
}

key_denied :
    evaluate same_path no_text paths config (tool_with (write ∷ [])) on_file
    ≡ verdict deny "guardrails"
key_denied =
    (evaluate_protected same_path no_text paths config (tool_with (write ∷ [])) on_file).1
      key_touched

one_more :
    (name : String)
    → contains name ("remote" ∷ []) ≡ true
    → contains name ("exec" ∷ "remote" ∷ []) ≡ true
one_more name h = ground arith

allowed :
    (evaluate same_path no_text paths
      (record config { confirm_effects = "exec" ∷ "remote" ∷ [] })
      (tool_with (read ∷ []))
      on_file).decision
    ≡ allow
unfolding evaluate hard_deny is_mutating has same rank gated confirm_set configured notices
    estimates parse_effect
allowed = refl

evaluate-confirm_mono_example :
    (evaluate same_path no_text paths config (tool_with (read ∷ [])) on_file).decision ≡ allow
evaluate-confirm_mono_example =
    evaluate-confirm_mono same_path no_text paths config (tool_with (read ∷ [])) on_file
      ("exec" ∷ "remote" ∷ []) one_more allowed
