-- ===== src/Leases.antt =====
-- Resource leases: core/src/garis/runtime/leases.py.
-- `Manager` is `LeaseManager._keys`; the `asyncio.Event` of a key is the flag `changed`. Code under
-- `async with self._lock` is one step. The clock and what other tasks do while `acquire` waits are
-- arguments, one `Round` for each turn of its loop. One clock stands for `time.time` and for
-- `time.monotonic`.
pub mod Keys
pub mod Table
pub mod Attempts
pub mod GivesBack
pub mod Mutex
pub mod Reentry
mod Tests
use garis.Base.{
  text_le, ℕ, zero, suc, ◌+◌, ◌-◌, String, Bool, true, false, ◌&&◌, not, Option, none, some, List,
  [], ◌∷◌, ltb, leb, nat_eq, if◌then◌else◌, all, keep, contains, is_some, ◌==◌,
}
use garis.Dict
use garis.Dict.{Dict}

pub data LeaseMode : Type 0 where
  shared exclusive : LeaseMode

pub record KeyState : Type 0 where
  pub readers : ℕ
  pub writer : Option String
  pub changed : Bool

-- `_KeyState()`, whose `__post_init__` sets the event
abbrev pub fresh : KeyState
fresh = record { readers = 0; writer = none; changed = true }

unfoldable pub free : KeyState → Bool
free s = nat_eq s.readers 0 && not (is_some s.writer)

abbrev pub Manager : Type 0
Manager = Dict KeyState

pub record Lease : Type 0 where
  pub keys : List String
  pub mode : LeaseMode
  pub holder : String
  pub acquired_at : ℕ
  pub released : Bool

abbrev or_fresh : Option KeyState → KeyState
or_fresh none = fresh
or_fresh (some s) = s

-- the value of `_state(key)`, which adds a fresh entry where there is none
unfoldable pub state : Manager → String → KeyState
state m key = or_fresh (Dict.get m key)

-- `state.writer is not None and state.writer != holder`
abbrev pub other_writer : Option String → String → Bool
other_writer none holder = false
other_writer (some w) holder = not (w == holder)

abbrev pub admits : KeyState → LeaseMode → String → Bool
admits s shared holder = not (other_writer s.writer holder)
admits s exclusive holder = if other_writer s.writer holder then false else not (ltb 0 s.readers)

abbrev admits_entry : Option KeyState → LeaseMode → String → Bool
admits_entry none mode holder = true
admits_entry (some s) mode holder = admits s mode holder

unfoldable pub can_take : Manager → String → LeaseMode → String → Bool
can_take m key mode holder = admits_entry (Dict.get m key) mode holder

abbrev pub taken : KeyState → LeaseMode → String → KeyState
taken s exclusive holder = record s { writer = some holder }
taken s shared holder = record s { readers = s.readers + 1 }

unfoldable pub take : Manager → String → LeaseMode → String → Manager
unfolding state
take m key mode holder = Dict.put m key (taken (state m key) mode holder)

abbrev pub without_writer : Option String → String → Option String
without_writer none holder = none
without_writer (some w) holder = if w == holder then none else some w

abbrev pub given_back : KeyState → LeaseMode → String → KeyState
given_back s exclusive holder = record s { writer = without_writer s.writer holder; changed = true }
given_back s shared holder = record s { readers = s.readers - 1; changed = true }

abbrev give_back_entry : Manager → String → LeaseMode → String → Option KeyState → Manager
give_back_entry m key mode holder none = m
give_back_entry m key mode holder (some s) =
    let t = given_back s mode holder in if free t then Dict.pop m key else Dict.put m key t

unfoldable pub give_back : Manager → String → LeaseMode → String → Manager
unfolding free
give_back m key mode holder = give_back_entry m key mode holder (Dict.get m key)

-- `for key in ordered: self._take(key, mode, holder)`
unfoldable pub take_all : Manager → List String → LeaseMode → String → Manager
take_all m [] mode holder = m
take_all m (k ∷ ks) mode holder = take_all (take m k mode holder) ks mode holder

-- `_release`
unfoldable pub release_keys : Manager → List String → LeaseMode → String → Manager
release_keys m [] mode holder = m
release_keys m (k ∷ ks) mode holder = release_keys (give_back m k mode holder) ks mode holder

-- `Lease.release`: the second call does nothing
unfoldable pub release : Manager → Lease → Manager × Lease
release m l =
    if l.released
    then (m, l)
    else (release_keys m l.keys l.mode l.holder, record l { released = true })

-- `sorted`, by code points
unfoldable pub insert_sorted : String → List String → List String
insert_sorted k [] = k ∷ []
insert_sorted k (j ∷ ks) =
    let rest = insert_sorted k ks in if text_le k j then k ∷ j ∷ ks else j ∷ rest

unfoldable pub sorted : List String → List String
unfolding insert_sorted
sorted [] = []
sorted (k ∷ ks) = insert_sorted k (sorted ks)

-- `set`
unfoldable pub set_of : List String → List String
set_of [] = []
set_of (k ∷ ks) = let rest = set_of ks in if contains k ks then rest else k ∷ rest

-- `tuple(sorted(set(k for k in keys if k)))`
unfoldable pub ordered : List String → List String
unfolding sorted set_of
ordered keys = sorted (set_of (keep (λ k. not (k == "")) keys))

-- `state.waiters.clear()` for every key that the request waits for
unfoldable pub clear_all : Manager → List String → Manager
clear_all m [] = m
clear_all m (k ∷ ks) = clear_all (Dict.put m k (record (state m k) { changed = false })) ks

pub data Attempt : Type 0 where
  granted : Lease → Manager → Attempt
  blocked : List String → Manager → Attempt

-- one turn of `acquire` under the lock, at the time `now`
unfoldable pub attempt : Manager → List String → LeaseMode → String → ℕ → Attempt
attempt m keys mode holder now =
    let lease : Lease = record {
      keys = keys;
      mode = mode;
      holder = holder;
      acquired_at = now;
      released = false;
    } in
    let blockers = keep (λ k. not (can_take m k mode holder)) keys in
    if all (λ k. can_take m k mode holder) keys
    then granted lease (take_all m keys mode holder)
    else blocked blockers (clear_all m blockers)

-- What happens between two turns: the clock after the failed turn, whether `wait_for` timed out,
-- and what the other tasks did to the table by the time this one goes on.
pub record Round : Type 0 where
  pub now : ℕ
  pub timed_out : Bool
  pub others : Manager → Manager

pub data Acquired : Type 0 where
  acquired : Lease → Manager → Acquired
  lease_timeout : Manager → Acquired
  waiting : Manager → Acquired

-- `remaining is not None and remaining <= 0`
abbrev pub past : Option ℕ → ℕ → Bool
past none now = false
past (some deadline) now = leb deadline now

-- the end of the last round: the task still waits
abbrev pub last_turn : Attempt → Acquired
last_turn (granted l m) = acquired l m
last_turn (blocked ks m) = waiting m

-- one round; `again` is the next turn of the loop
abbrev pub turn : Attempt → Option ℕ → Round → (Manager → Acquired) → Acquired
turn (granted l m) deadline r again = acquired l m
turn (blocked ks m) deadline r again =
    if past deadline r.now
    then lease_timeout m
    else if is_some deadline && r.timed_out
    then lease_timeout (r.others m)
    else again (r.others m)

-- The loop of `acquire`. When the rounds are used up the task still waits.
unfoldable pub acquire_loop :
    Manager → List String → LeaseMode → String → Option ℕ → ℕ → List Round → Acquired
acquire_loop m keys mode holder deadline now [] = last_turn (attempt m keys mode holder now)
acquire_loop m keys mode holder deadline now (r ∷ rounds) =
    turn (attempt m keys mode holder now) deadline r
      (λ n. acquire_loop n keys mode holder deadline r.now rounds)

abbrev pub deadline_of : Option ℕ → ℕ → Option ℕ
deadline_of none now = none
deadline_of (some timeout) now = some (now + timeout)

abbrev pub acquire_ordered :
    Manager → List String → LeaseMode → String → Option ℕ → ℕ → List Round → Acquired
acquire_ordered m [] mode holder timeout now rounds =
    acquired
      (record { keys = []; mode = mode; holder = holder; acquired_at = now; released = false }) m
acquire_ordered m (k ∷ ks) mode holder timeout now rounds =
    acquire_loop m (k ∷ ks) mode holder (deadline_of timeout now) now rounds

-- `LeaseManager.acquire`
unfoldable pub acquire :
    Manager → List String → LeaseMode → String → Option ℕ → ℕ → List Round → Acquired
unfolding ordered
acquire m keys mode holder timeout now rounds =
    acquire_ordered m (ordered keys) mode holder timeout now rounds

-- `is_busy`
unfoldable pub is_busy : Manager → String → Bool
unfolding free
is_busy m key = elim (Dict.get m key) [ none ↦ false | some s ↦ not (free s) ]
