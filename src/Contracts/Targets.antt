-- ===== src/Contracts/Targets.antt =====
-- The persisted shape of a step target (core/src/garis/kernel/contracts.py).
use garis.Base.{String, ◌≡◌, ◌≢◌, refl, str_ne}
use garis.Contracts.{
  StepTarget, tool_target, capability_target, target, name, target_from_dict, target_to_dict,
}

-- A target comes back from its persisted shape, if its name is not empty and stripping leaves the name
-- and the empty text as they are.
pub target_from_dict-target_to_dict :
    (strip : String → String) (t : StepTarget)
    → strip "" ≡ ""
    → strip (name t) ≡ name t
    → name t ≢ ""
    → target_from_dict strip (target_to_dict t) ≡ target t
unfolding target_from_dict target_to_dict
target_from_dict-target_to_dict strip (tool_target n) e s h = rw (e, s, str_ne n "" h) refl
target_from_dict-target_to_dict strip (capability_target n) e s h = rw (e, s, str_ne n "" h) refl
