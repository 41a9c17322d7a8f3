-- ===== src/Contracts.antt =====
-- The shared vocabulary: core/src/garis/kernel/contracts.py.
-- The explanatory texts of a verdict and the ids of its evidence are texts that no decision reads.
pub mod Targets
mod Tests
use garis.Base.{String, Bool, true, false, ◌&&◌, not, ◌==◌, if◌then◌else◌, List, []}

pub data Failure : Type 0 where
  unsupported_platform invalid_input permission_denied approval_denied executor_failed : Failure
  postcondition_failed effect_uncertain provider_unavailable cancelled persistence_failed : Failure

pub record Verification : Type 0 where
  pub goal_met : Bool
  pub checked : Bool
  pub uncertain : Bool
  pub checked_by : String
  pub reason : String
  pub unmet : List String
  pub evidence_ids : List String

unfoldable pub verified : Verification → Bool
verified v = v.goal_met && (v.checked && not v.uncertain)

unfoldable pub unchecked : String → Bool → Verification
unchecked why goal_met = record {
  goal_met = goal_met;
  checked = false;
  uncertain = false;
  checked_by = "none";
  reason = why;
  unmet = [];
  evidence_ids = [];
}

unfoldable pub uncertain_effect : String → Verification
uncertain_effect why = record {
  goal_met = false;
  checked = false;
  uncertain = true;
  checked_by = "rules";
  reason = why;
  unmet = [];
  evidence_ids = [];
}

pub data RuntimeProfile : Type 0 where
  production development test fixture : RuntimeProfile

unfoldable pub allows_doubles : RuntimeProfile → Bool
allows_doubles test = true
allows_doubles fixture = true
allows_doubles _ = false

pub data StepTarget : Type 0 where
  tool_target : String → StepTarget
  capability_target : String → StepTarget

-- the persisted shape of a target: both columns
pub record TargetColumns : Type 0 where
  pub tool : String
  pub capability : String

pub data TargetResult : Type 0 where
  target : StepTarget → TargetResult
  raised : Failure → TargetResult

-- `str.strip` is Python's; a missing column reads as the empty text
module _ (strip : String → String) where
  unfoldable pub target_from_dict : TargetColumns → TargetResult
  target_from_dict d =
      let tool = strip d.tool in
      let capability = strip d.capability in
      if not (tool == "") && not (capability == "")
      then raised invalid_input
      else if not (capability == "")
      then target (capability_target capability)
      else if not (tool == "")
      then target (tool_target tool)
      else raised invalid_input

unfoldable pub target_to_dict : StepTarget → TargetColumns
target_to_dict (capability_target capability) = record { tool = ""; capability = capability }
target_to_dict (tool_target tool) = record { tool = tool; capability = "" }

abbrev pub name : StepTarget → String
name (tool_target t) = t
name (capability_target c) = c
