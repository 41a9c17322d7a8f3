-- ===== src/Verifier/Table.antt =====
-- The table of reflexes and the plan that one gives: core/src/garis/agent/reflex.py.
-- A goal comes as the list of words `fold(text).split()`. A plan has the fields of its only step; its
-- origin is `origin`.
use garis.Base.{
  ℕ, String, Bool, Option, none, some, List, [], ◌∷◌, ◌==◌, ◌&&◌, not, all, any, keep, contains,
  if◌then◌else◌,
}
use garis.Verifier.Reflexes.{
  ToolValue, Flaw, unknown_tool, validate_disk, validate_memory, validate_processes,
  validate_system, validate_time,
}

-- ORIGIN
abbrev pub origin : String
origin = "reflex"

pub record Reflex : Type 0 where
  pub name : String
  pub tool : String
  pub purpose : String
  pub needs : List (List String)
  pub validate : ToolValue → Option Flaw
  -- `params_from`, of the list of words
  pub params_from : Option (List String → Option String)

-- the one step of a reflex plan; `named` is the parameter `name`
pub record ReflexPlan : Type 0 where
  pub summary : String
  pub key : String
  pub tool : String
  pub named : Option String
  pub purpose : String
  pub expects : String

abbrev in_quantity : List String
in_quantity =
    "ile" ∷ "wolne" ∷ "wolnego" ∷ "zostalo" ∷ "miejsca" ∷ "miejsce" ∷ "zajete" ∷ "zajetosc"
    ∷ "space" ∷ "free" ∷ "left" ∷ "usage" ∷ []

abbrev in_disk : List String
in_disk =
    "dysk" ∷ "dysku" ∷ "dysku;" ∷ "dysko" ∷ "dyski" ∷ "disk" ∷ "drive" ∷ "partycja" ∷ "partycji"
    ∷ "ssd" ∷ []

abbrev in_memory : List String
in_memory = "pamiec" ∷ "pamieci" ∷ "ram" ∷ "memory" ∷ []

abbrev in_system : List String
in_system =
    "system" ∷ "systemu" ∷ "windows" ∷ "os" ∷ "wersja" ∷ "wersje" ∷ "wersji" ∷ "komputer"
    ∷ "komputerze" ∷ "maszyna" ∷ []

abbrev in_what : List String
in_what =
    "jaki" ∷ "jaka" ∷ "jakie" ∷ "ktory" ∷ "ktora" ∷ "co" ∷ "what" ∷ "informacje" ∷ "info" ∷ "which"
    ∷ "version" ∷ []

abbrev in_time : List String
in_time = "godzina" ∷ "godzine" ∷ "czas" ∷ "time" ∷ "clock" ∷ "zegar" ∷ []

abbrev in_processes : List String
in_processes =
    "procesy" ∷ "proces" ∷ "procesow" ∷ "programy" ∷ "program" ∷ "aplikacje" ∷ "processes" ∷ "apps"
    ∷ "tasks" ∷ []

abbrev in_show : List String
in_show =
    "pokaz" ∷ "wypisz" ∷ "lista" ∷ "liste" ∷ "wylistuj" ∷ "jakie" ∷ "uruchomione" ∷ "dzialajace"
    ∷ "show" ∷ "list" ∷ "running" ∷ []

abbrev in_running : List String
in_running =
    "dziala" ∷ "uruchomiony" ∷ "uruchomiona" ∷ "uruchomione" ∷ "wlaczony" ∷ "wlaczona" ∷ "running"
    ∷ "open" ∷ "otwarty" ∷ []

abbrev in_noise : List String
in_noise =
    "jest" ∷ "sa" ∷ "teraz" ∷ "jeszcze" ∷ "czy" ∷ "is" ∷ "the" ∷ "u" ∷ "mnie" ∷ "na" ∷ "komputerze"
    ∷ "moim" ∷ "to" ∷ "tam" ∷ "cos" ∷ "jakis" ∷ "gdzies" ∷ "it" ∷ "that" ∷ "this" ∷ "still"
    ∷ "already" ∷ []

abbrev in_is_it : List String
in_is_it = "czy" ∷ "is" ∷ []

abbrev in_now : List String
in_now = "teraz" ∷ "jest" ∷ "obecnie" ∷ "now" ∷ "current" ∷ "aktualnie" ∷ []

-- `words[words.index(marker) + 1:]`, where the marker is there
abbrev after_word : String → List String → Option (List String)
after_word marker [] = none
after_word marker (w ∷ ws) = if w == marker then some ws else after_word marker ws

abbrev first_name : Option (List String) → Option String
first_name none = none
first_name (some ws) =
    elim (keep (λ w. not (contains w in_running) && not (contains w in_noise)) ws) [
      | [] ↦ none
      | w ∷ rest ↦ some w
    ]

-- `_named_process`
unfoldable pub named_process : List String → Option String
named_process ws = elim (first_name (after_word "czy" ws)) [
  | none ↦ first_name (after_word "is" ws)
  | some w ↦ some w
]

module _ (read_float : String → Option ℕ) (strip : String → String) where
  abbrev pub reflexes : List Reflex
  reflexes =
      record {
        name = "disk-space";
        tool = "disk_usage";
        purpose = "Odczyt wolnego miejsca na dysku";
        needs = in_disk ∷ in_quantity ∷ [];
        validate = validate_disk read_float strip;
        params_from = none;
      }
      ∷ record {
        name = "memory";
        tool = "memory_usage";
        purpose = "Odczyt zajętości pamięci";
        needs = in_memory ∷ in_quantity ∷ [];
        validate = validate_memory read_float strip;
        params_from = none;
      }
      ∷ record {
        name = "process-named";
        tool = "process_find";
        purpose = "Sprawdzenie, czy dany program działa";
        needs = in_is_it ∷ in_running ∷ [];
        validate = validate_processes read_float strip;
        params_from = some named_process;
      }
      ∷ record {
        name = "process-list";
        tool = "process_find";
        purpose = "Odczyt listy działających procesów";
        needs = in_processes ∷ in_show ∷ [];
        validate = validate_processes read_float strip;
        params_from = none;
      }
      ∷ record {
        name = "system-info";
        tool = "system_info";
        purpose = "Odczyt informacji o systemie";
        needs = in_system ∷ in_what ∷ [];
        validate = validate_system read_float strip;
        params_from = none;
      }
      ∷ record {
        name = "clock";
        tool = "current_time";
        purpose = "Odczyt czasu lokalnego";
        needs = in_time ∷ in_now ∷ [];
        validate = validate_time read_float strip;
        params_from = none;
      }
      ∷ []

-- `matches`
unfoldable pub matches : Reflex → List String → Bool
matches r ws = all (λ group. any (λ w. contains w ws) group) r.needs

-- the loop of `find`
unfoldable pub find_in : List Reflex → List String → Option Reflex
unfolding matches
find_in [] ws = none
find_in (r ∷ rs) ws = if matches r ws then some r else find_in rs ws

-- `BY_TOOL.get`: of two reflexes for one tool the later one stands
unfoldable pub by_tool : List Reflex → String → Option Reflex
by_tool [] tool = none
by_tool (r ∷ rs) tool =
    let later = by_tool rs tool in
    elim later [ none ↦ if r.tool == tool then some r else none | some x ↦ some x ]

abbrev plan_with : Reflex → Option String → ReflexPlan
plan_with r named = record {
  summary = r.purpose;
  key = r.name;
  tool = r.tool;
  named = named;
  purpose = r.purpose;
  expects = "zmierzone wartości";
}

abbrev pub named_plan : Reflex → Option String → Option ReflexPlan
named_plan r none = none
named_plan r (some w) = some (plan_with r (some w))

abbrev pub plan_of : Reflex → Option (List String → Option String) → List String → Option ReflexPlan
plan_of r none ws = some (plan_with r none)
plan_of r (some params_from) ws = named_plan r (params_from ws)

abbrev pub plan_found : (String → Bool) → List String → Option Reflex → Option ReflexPlan
plan_found available ws none = none
plan_found available ws (some r) = if available r.tool then plan_of r r.params_from ws else none

-- what `check` of a reflex and `answer` ask of it
abbrev pub flaw_of : Option Reflex → ToolValue → Option Flaw
flaw_of none x = some unknown_tool
flaw_of (some r) x = r.validate x

module _ (read_float : String → Option ℕ) (strip : String → String) where
  -- `find`
  unfoldable pub find : List String → Option Reflex
  unfolding find_in
  find ws = find_in (reflexes read_float strip) ws

  -- `plan_for`
  unfoldable pub plan_for : (String → Bool) → List String → Option ReflexPlan
  unfolding find
  plan_for available ws = plan_found available ws (find ws)

  -- `check`: none for a usable value
  unfoldable pub reflex_check : String → ToolValue → Option Flaw
  unfolding by_tool
  reflex_check tool x = flaw_of (by_tool (reflexes read_float strip) tool) x
