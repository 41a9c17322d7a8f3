-- ===== src/Tasks.antt =====
-- Durable tasks: core/src/garis/tasks/models.py, store.py and supervisor.py.
-- `TaskStore` is the two tables; a JSON column is its text. `Tasks.Supervisor` adds the coroutines.
-- Times are arguments of the calls that read the clock.
pub mod Journal
pub mod Supervisor
mod Tests
use garis.Base.{
  ℕ, ◌+◌, ◌-◌, ◌*◌, String, Bool, true, false, Option, none, some, List, [], ◌∷◌, ◌++◌, ltb, ◌==◌,
  ◌&&◌, ◌||◌, not, if◌then◌else◌, keep, map, length,
}
use garis.Dict.{Dict}
use garis.Rows

pub data TaskState : Type 0 where
  pending running blocked finished failed stopped : TaskState

unfoldable pub terminal : TaskState → Bool
terminal finished = true
terminal failed = true
terminal stopped = true
terminal _ = false

unfoldable pub active : TaskState → Bool
active pending = true
active running = true
active blocked = true
active _ = false

abbrev pub is_running : TaskState → Bool
is_running running = true
is_running _ = false

pub data StepState : Type 0 where
  step_pending step_running step_done step_failed : StepState

abbrev pub is_done : StepState → Bool
is_done step_done = true
is_done _ = false

abbrev pub is_step_running : StepState → Bool
is_step_running step_running = true
is_step_running _ = false

pub record TaskRecord : Type 0 where
  pub id : String
  pub goal : String
  pub state : TaskState
  pub criteria : List String
  pub origin : String
  pub target : String
  pub plan : String
  pub cursor : ℕ
  pub result : Option String
  pub report : Option String
  pub error : String
  pub attempts : ℕ
  pub created_at : ℕ
  pub updated_at : ℕ
  pub started_at : Option ℕ
  pub finished_at : Option ℕ
  pub deadline : Option ℕ
  pub meta : String

-- `TaskRecord.new`, with the drawn id and the clock; `strip` stands for Python's `str.strip`
abbrev pub new :
    (String → String)
    → String
    → String
    → List String
    → String
    → String
    → Option ℕ
    → String
    → ℕ
    → TaskRecord
new strip id goal criteria origin target deadline meta now = record {
  id = id;
  goal = strip goal;
  state = pending;
  criteria = criteria;
  origin = origin;
  target = target;
  plan = "{}";
  cursor = 0;
  result = none;
  report = none;
  error = "";
  attempts = 0;
  created_at = now;
  updated_at = now;
  started_at = none;
  finished_at = none;
  deadline = deadline;
  meta = meta;
}

pub record StepRecord : Type 0 where
  pub task_id : String
  pub step_key : String
  pub ordinal : ℕ
  pub tool : String
  pub params : String
  pub state : StepState
  pub result : Option String
  pub error : String
  pub attempts : ℕ
  pub started_at : Option ℕ
  pub finished_at : Option ℕ

pub record TaskStore : Type 0 where
  pub tasks : List TaskRecord
  pub steps : List StepRecord

abbrev pub key : TaskRecord → String
key t = t.id

-- `create`; `none` is the error of the database for an id that is taken
abbrev create_in : TaskStore → TaskRecord → Option TaskRecord → Option TaskStore
create_in s t none = some (record s { tasks = Rows.insert key s.tasks t })
create_in s t (some other) = none

unfoldable pub create : TaskStore → TaskRecord → Option TaskStore
create s t = create_in s t (Rows.find key s.tasks t.id)

unfoldable pub get : TaskStore → String → Option TaskRecord
get s id = Rows.find key s.tasks id

-- the columns that `set_state` is given besides the state
pub record Extra : Type 0 where
  pub error : Option String
  pub report : Option (Option String)
  pub result : Option (Option String)

abbrev pub no_extra : Extra
no_extra = record { error = none; report = none; result = none }

abbrev pub with_error : String → Extra
with_error text = record no_extra { error = some text }

abbrev given {ℓ} : {A : Type ℓ} → Option A → A → A
given none old = old
given (some x) old = x

unfoldable pub moved : TaskState → Extra → ℕ → TaskRecord → TaskRecord
unfolding terminal
moved state extra now t = record t {
  state = state;
  updated_at = now;
  error = given extra.error t.error;
  report = given extra.report t.report;
  result = given extra.result t.result;
  started_at = if is_running state then some now else t.started_at;
  finished_at = if terminal state then some now else t.finished_at;
}

unfoldable pub set_state : TaskStore → String → TaskState → Extra → ℕ → TaskStore
set_state s id state extra now = record s {
  tasks = Rows.update key s.tasks id (moved state extra now);
}

unfoldable pub save_plan : TaskStore → String → String → ℕ → TaskStore
save_plan s id plan now = record s {
  tasks = Rows.update key s.tasks id (λ t. record t { plan = plan; updated_at = now });
}

unfoldable pub finish :
    TaskStore → String → TaskState → Option String → Option String → String → ℕ → TaskStore
unfolding set_state
finish s id state report result error now =
    set_state s id state (record { error = some error; report = some report; result = some result })
      now

unfoldable pub touch : TaskStore → String → ℕ → TaskStore
touch s id now = record s {
  tasks = Rows.update key s.tasks id (λ t. record t { updated_at = now });
}

unfoldable pub bump_attempts : TaskStore → String → ℕ → ℕ × TaskStore
bump_attempts s id now =
    let rows =
      Rows.update key s.tasks id (λ t. record t { attempts = t.attempts + 1; updated_at = now }) in
    (elim (Rows.find key rows id) [ none ↦ 0 | some t ↦ t.attempts ], record s { tasks = rows })

abbrev before : Option ℕ → ℕ → Bool
before none cutoff = false
before (some t) cutoff = ltb t cutoff

abbrev is_old : ℕ → TaskRecord → Bool
is_old cutoff t = terminal t.state && before t.finished_at cutoff

-- `prune_finished`, with the cutoff computed; the steps of a deleted task stay in their table
unfoldable pub prune_finished : TaskStore → ℕ → TaskStore × ℕ
unfolding terminal
prune_finished s cutoff = (
  record s { tasks = keep (λ t. not (is_old cutoff t)) s.tasks },
  length (keep (is_old cutoff) s.tasks),
)

abbrev pub is_step : String → String → StepRecord → Bool
is_step task_id step_key r = r.task_id == task_id && r.step_key == step_key

-- INSERT … ON CONFLICT(task_id, step_key) DO UPDATE
unfoldable pub upsert :
    String → String → StepRecord → (StepRecord → StepRecord) → List StepRecord → List StepRecord
upsert t k fresh f [] = fresh ∷ []
upsert t k fresh f (r ∷ rows) =
    let rest = upsert t k fresh f rows in if is_step t k r then f r ∷ rows else r ∷ rest

abbrev pub first_row : String → String → ℕ → String → String → ℕ → StepRecord
first_row t k ordinal tool params now = record {
  task_id = t;
  step_key = k;
  ordinal = ordinal;
  tool = tool;
  params = params;
  state = step_running;
  result = none;
  error = "";
  attempts = 1;
  started_at = some now;
  finished_at = none;
}

abbrev pub restarted : ℕ → StepRecord → StepRecord
restarted now r = record r {
  attempts = r.attempts + 1;
  started_at = some now;
  state = step_running;
}

unfoldable pub step_started :
    List StepRecord → String → String → ℕ → String → String → ℕ → List StepRecord
unfolding upsert
step_started rows t k ordinal tool params now =
    upsert t k (first_row t k ordinal tool params now) (restarted now) rows

abbrev pub ended : Bool → Option String → String → ℕ → StepRecord → StepRecord
ended ok value error now r = record r {
  state = if ok then step_done else step_failed;
  result = value;
  error = error;
  finished_at = some now;
}

unfoldable pub step_finished :
    List StepRecord → String → String → Bool → Option String → String → ℕ → List StepRecord
step_finished rows t k ok value error now =
    map (λ r. if is_step t k r then ended ok value error now r else r) rows

-- `completed_steps`: the results by step key
unfoldable pub completed_steps : List StepRecord → String → Dict (Option String)
completed_steps [] t = []
completed_steps (r ∷ rows) t =
    let rest = completed_steps rows t in
    if r.task_id == t && is_done r.state then (r.step_key, r.result) ∷ rest else rest

abbrev pub reset : String → StepRecord → StepRecord
reset t r =
    if r.task_id == t && is_step_running r.state then record r { state = step_pending } else r

unfoldable pub reset_running_steps : List StepRecord → String → List StepRecord
reset_running_steps rows t = map (reset t) rows

abbrev pub reset_all : List StepRecord → List TaskRecord → List StepRecord
reset_all rows [] = rows
reset_all rows (t ∷ tasks) = reset_all (reset_running_steps rows t.id) tasks

-- `recover_incomplete`
unfoldable pub recover_incomplete : TaskStore → List TaskRecord × TaskStore
unfolding reset_running_steps
recover_incomplete s =
    let found = keep (λ t. is_running t.state) s.tasks in
    (found, record s { steps = reset_all s.steps found })
