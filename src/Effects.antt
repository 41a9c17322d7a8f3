-- ===== src/Effects.antt =====
-- Durable effect identity: core/src/garis/kernel/effects.py.
-- The table `effects` is a list of rows; `json` and `hashlib` make the parameter `arguments_hash`,
-- and an outcome or the evidence is the JSON text of it. `time.time()` is an argument.
pub mod Once
pub mod Sweep
mod Tests
use garis.Base.{
  ℕ, String, Bool, true, false, Option, none, some, List, [], ◌∷◌, leb, keep, not, ◌&&◌, ◌==◌,
  if◌then◌else◌,
}
use garis.Rows
use garis.Contracts.{Failure, invalid_input}

pub data EffectState : Type 0 where
  reserved done failed uncertain : EffectState

unfoldable pub settled : EffectState → Bool
settled reserved = false
settled _ = true

pub record EffectRecord : Type 0 where
  pub effect_id : String
  pub capability_id : String
  pub state : EffectState
  pub task_id : String
  pub step_key : String
  pub arguments_hash : String
  pub outcome : Option String
  pub evidence : String
  pub reason : String
  pub reserved_at : ℕ
  pub settled_at : Option ℕ

abbrev is_failed : EffectState → Bool
is_failed failed = true
is_failed _ = false

abbrev pub is_reserved : EffectState → Bool
is_reserved reserved = true
is_reserved _ = false

unfoldable pub repeatable : EffectRecord → Bool
repeatable r = is_failed r.state

pub record EffectReservation : Type 0 where
  pub granted : Bool
  pub row : EffectRecord

abbrev pub existing : EffectReservation → Option EffectRecord
existing r = if r.granted then none else some r.row

abbrev pub EffectRows : Type 0
EffectRows = List EffectRecord

abbrev pub key : EffectRecord → String
key r = r.effect_id

-- `reserve` returns a reservation or raises a `CapabilityError`
pub data Reserved : Type 0 where
  answer : EffectReservation → Reserved
  raised : Failure → Reserved

-- what `reserve` does with the row that it finds
abbrev claim : EffectRows → EffectRecord → Option EffectRecord → Reserved × EffectRows
claim rows r none = (answer (record { granted = true; row = r }), Rows.insert key rows r)
claim rows r (some old) =
    if not (old.arguments_hash == "") && not (old.arguments_hash == r.arguments_hash)
    then (raised invalid_input, rows)
    else (answer (record { granted = false; row = old }), rows)

module _ {Args : Type 0} (arguments_hash : Args → String) where
  abbrev pub new_row : String → String → String → String → Args → ℕ → EffectRecord
  new_row effect_id capability_id task_id step_key args now = record {
    effect_id = effect_id;
    capability_id = capability_id;
    state = reserved;
    task_id = task_id;
    step_key = step_key;
    arguments_hash = arguments_hash args;
    outcome = none;
    evidence = "[]";
    reason = "";
    reserved_at = now;
    settled_at = none;
  }

  -- `EffectStore.reserve`; the look-up and the insert are one transaction
  unfoldable pub reserve :
      EffectRows → String → String → String → String → Args → ℕ → Reserved × EffectRows
  reserve rows effect_id capability_id task_id step_key args now =
      claim rows (new_row effect_id capability_id task_id step_key args now)
        (Rows.find key rows effect_id)

-- the row that `_settle` writes
abbrev pub settled_row :
    EffectState → Option String → String → String → ℕ → EffectRecord → EffectRecord
settled_row state outcome evidence reason now r = record r {
  state = state;
  outcome = outcome;
  evidence = evidence;
  reason = reason;
  settled_at = some now;
}

unfoldable pub settle :
    EffectRows → String → EffectState → Option String → String → String → ℕ → EffectRows
settle rows effect_id state outcome evidence reason now =
    Rows.update key rows effect_id (settled_row state outcome evidence reason now)

unfoldable pub complete :
    EffectRows → String → Bool → Option String → String → String → ℕ → EffectRows
unfolding settle
complete rows effect_id ok outcome evidence reason now =
    settle rows effect_id (if ok then done else failed) outcome evidence reason now

abbrev lost : String
lost = "Proces zakończył się w trakcie tej operacji — nie wiem, czy doszła do skutku."

unfoldable pub mark_uncertain : EffectRows → String → String → ℕ → EffectRows
unfolding settle
mark_uncertain rows effect_id reason now = settle rows effect_id uncertain none "[]" reason now

unfoldable pub load : EffectRows → String → Option EffectRecord
load rows effect_id = Rows.find key rows effect_id

-- rows in the order of `reserved_at`, the older ones of equal times first
abbrev insert_by_time : EffectRecord → EffectRows → EffectRows
insert_by_time r [] = r ∷ []
insert_by_time r (x ∷ rows) =
    let rest = insert_by_time r rows in
    if leb r.reserved_at x.reserved_at then r ∷ x ∷ rows else x ∷ rest

unfoldable pub for_task : EffectRows → String → EffectRows
for_task [] task_id = []
for_task (r ∷ rows) task_id =
    let rest = for_task rows task_id in if r.task_id == task_id then insert_by_time r rest else rest

-- WHERE state = 'reserved' AND reserved_at <= cutoff
abbrev pub is_stranded : ℕ → EffectRecord → Bool
is_stranded cutoff r = is_reserved r.state && leb r.reserved_at cutoff

unfoldable pub mark_all : EffectRows → EffectRows → ℕ → EffectRows
unfolding mark_uncertain
mark_all rows [] now = rows
mark_all rows (r ∷ stranded) now = mark_all (mark_uncertain rows r.effect_id lost now) stranded now

-- `sweep_unsettled`: the stranded rows as they were read, and the table afterwards
unfoldable pub sweep_unsettled : EffectRows → ℕ → ℕ → EffectRows × EffectRows
unfolding mark_all
sweep_unsettled rows cutoff now =
    let stranded = keep (is_stranded cutoff) rows in (stranded, mark_all rows stranded now)
