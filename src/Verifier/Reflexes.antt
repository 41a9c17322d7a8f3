-- ===== src/Verifier/Reflexes.antt =====
-- Questions that the machine answers itself: core/src/garis/agent/reflex.py.
-- A number is a count of hundredths. Sums and quotients are exact, where the code has floats: an
-- inequality between quotients is multiplied out. What `float` reads in a text is the parameter
-- `read_float`, what `str.strip` leaves of one is `strip`; `fold(text).split()` comes as the list of
-- words. The sentences of the presenters are not modelled; those of the validators are `Flaw`.
use garis.Base.{
  ℕ, ◌+◌, ◌-◌, ◌*◌, String, Bool, true, false, Option, none, some, ◌==◌, not, ltb, max, leb,
  if◌then◌else◌, nat_eq,
}
use garis.Dict
use garis.Dict.{Dict}

-- a field of a tool's value
pub data Field : Type 0 where
  -- finite and not negative
  number : ℕ → Field
  -- negative, infinite or NaN
  no_number : Field
  words : String → Field
  flag : Bool → Field

pub data ToolValue : Type 0 where
  is_dict : Dict Field → ToolValue
  is_text : String → ToolValue
  is_other : ToolValue

pub data Flaw : Type 0 where
  no_data no_size zero_size too_much_free parts_differ percent_differs files_differ : Flaw
  no_scan nothing_scanned no_system no_time unknown_tool : Flaw

abbrev pub abs_diff : ℕ → ℕ → ℕ
abs_diff a b = (a - b) + (b - a)

-- TOLERANCE_BYTES in hundred-thousandths of a byte
abbrev tolerance_bytes : ℕ
tolerance_bytes = 104857600000

-- TOLERANCE_PERCENT in hundredths of a point
abbrev pub tolerance_percent : ℕ
tolerance_percent = 15

-- `_slack`, a thousand times
unfoldable pub slack : ℕ → ℕ
slack total = max (if leb tolerance_bytes total then tolerance_bytes else total) 100000

-- `abs(percent - rest / total * 100) > TOLERANCE_PERCENT`, where `rest` is `total - free`
unfoldable pub percent_off : ℕ → ℕ → ℕ → Bool
percent_off percent total free =
    ltb (tolerance_percent * total) (abs_diff (percent * total + 10000 * free) (10000 * total))

module _ (read_float : String → Option ℕ) where
  -- `_number`
  abbrev pub number_of : Option Field → Option ℕ
  number_of none = none
  number_of (some (number n)) = some n
  number_of (some no_number) = none
  number_of (some (words s)) = read_float s
  number_of (some (flag b)) = none

abbrev pub used_off : ℕ → ℕ → Option ℕ → Bool
used_off total free none = false
used_off total free (some used) = ltb (slack total) (1000 * abs_diff total (free + used))

abbrev pub share_off : ℕ → ℕ → Option ℕ → Bool
share_off total free none = false
share_off total free (some percent) = percent_off percent total free

abbrev pub files_off : ℕ → Option ℕ → Option ℕ → Option ℕ → Bool
files_off total (some reserved) (some files) (some used) =
    ltb (slack total) (1000 * abs_diff (files + reserved) used)
files_off total reserved files used = false

-- the checks that a disk and the memory share, once both sizes are there
abbrev pub sizes : ℕ → ℕ → Option ℕ → Option ℕ → Option Flaw
sizes total free used percent =
    if nat_eq total 0
    then some zero_size
    else if ltb (1000 * total + slack total) (1000 * free)
    then some too_much_free
    else if used_off total free used
    then some parts_differ
    else if share_off total free percent
    then some percent_differs
    else none

abbrev pub measured : Option ℕ → Option ℕ → Option ℕ → Option ℕ → Option Flaw
measured none free used percent = some no_size
measured (some total) none used percent = some no_size
measured (some total) (some free) used percent = sizes total free used percent

abbrev pub files : Option ℕ → Option ℕ → Option ℕ → Option ℕ → Option Flaw
files none reserved filesystem_used used = none
files (some total) reserved filesystem_used used =
    if files_off total reserved filesystem_used used then some files_differ else none

abbrev pub or_flaw : Option Flaw → Option Flaw → Option Flaw
or_flaw none b = b
or_flaw (some a) b = some a

abbrev pub scan : Option ℕ → Option Flaw
scan none = some no_scan
scan (some n) = if ltb n 100 then some nothing_scanned else none

module _ (read_float : String → Option ℕ) (strip : String → String) where
  abbrev pub field_of : Dict Field → String → Option ℕ
  field_of d name = number_of read_float (Dict.get d name)

  -- `_validate_disk`
  unfoldable pub validate_disk : ToolValue → Option Flaw
  unfolding slack percent_off Dict.get
  validate_disk (is_dict d) =
      or_flaw
        (measured (field_of d "total") (field_of d "free") (field_of d "used")
          (field_of d "percent_used"))
        (files (field_of d "total") (field_of d "reserved") (field_of d "filesystem_used")
          (field_of d "used"))
  validate_disk _ = some no_data

  -- `_validate_memory`
  unfoldable pub validate_memory : ToolValue → Option Flaw
  unfolding slack percent_off Dict.get
  validate_memory (is_dict d) =
      measured (field_of d "total") (field_of d "available") (field_of d "used")
        (field_of d "percent_used")
  validate_memory _ = some no_data

  -- `_validate_processes`
  unfoldable pub validate_processes : ToolValue → Option Flaw
  unfolding Dict.get
  validate_processes (is_dict d) = scan (field_of d "scanned")
  validate_processes _ = some no_data

  -- `str(value.get(name) or "").strip()` is not empty
  abbrev has_words : Option Field → Bool
  has_words none = false
  has_words (some (words s)) = not (strip s == "")
  has_words (some (number n)) = not (nat_eq n 0)
  has_words (some no_number) = true
  has_words (some (flag b)) = b

  -- `_validate_system`
  unfoldable pub validate_system : ToolValue → Option Flaw
  unfolding Dict.get
  validate_system (is_dict d) = if has_words (Dict.get d "system") then none else some no_system
  validate_system _ = some no_data

  -- `_validate_time`
  unfoldable pub validate_time : ToolValue → Option Flaw
  unfolding Dict.get
  validate_time (is_dict d) = if has_words (Dict.get d "local") then none else some no_time
  validate_time (is_text s) = if strip s == "" then some no_time else none
  validate_time is_other = some no_time
