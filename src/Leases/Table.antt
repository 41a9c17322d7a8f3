-- ===== src/Leases/Table.antt =====
-- What `_take` and `_give_back` do to the readers and the writer of every key
-- (core/src/garis/runtime/leases.py).
use garis.Base.{
  ℕ, ◌+◌, ◌-◌, ◌≡◌, refl, String, Bool, true, false, Option, some, List, [], ◌∷◌, arith, ◌==◌,
  eq_iff, if◌then◌else◌, contains, Option-cases, inl, inr,
}
use garis.Dict
use garis.Dict.{get-put, get-pop}
use garis.Leases.{
  LeaseMode, shared, exclusive, Manager, taken, given_back, without_writer, state, take, give_back,
  take_all, release_keys,
}

abbrev pub readers : Manager → String → ℕ
readers m k = (state m k).readers

abbrev pub writer : Manager → String → Option String
writer m k = (state m k).writer

pub state-take :
    (m : Manager) (k j h : String) (mode : LeaseMode)
    → state (take m k mode h) j ≡ (if k == j then taken (state m k) mode h else state m j)
unfolding state take
state-take m k j h mode = ground (arith, get-put m k j (taken (state m k) mode h))

-- The entry is dropped when it is free, and then the key reads as a fresh one.
pub readers-give_back :
    (m : Manager) (k j h : String) (mode : LeaseMode)
    → readers (give_back m k mode h) j
      ≡ (if k == j then (given_back (state m k) mode h).readers else readers m j)
unfolding state give_back
readers-give_back m k j h shared = elim (Option-cases (Dict.get m k)) [
  | inl e ↦ ground (arith, eq_iff k j)
  | inr (s, e) ↦ ground (arith, eq_iff k j, get-put m k j (given_back s shared h), get-pop m k j)
]
readers-give_back m k j h exclusive = elim (Option-cases (Dict.get m k)) [
  | inl e ↦ ground (arith, eq_iff k j)
  | inr (s, e) ↦ ground (arith, eq_iff k j, get-put m k j (given_back s exclusive h), get-pop m k j)
]

pub writer-give_back :
    (m : Manager) (k j h : String) (mode : LeaseMode)
    → writer (give_back m k mode h) j
      ≡ (if k == j then (given_back (state m k) mode h).writer else writer m j)
unfolding state give_back
writer-give_back m k j h shared = elim (Option-cases (Dict.get m k)) [
  | inl e ↦ ground (arith, eq_iff k j)
  | inr (s, e) ↦ ground (arith, eq_iff k j, get-put m k j (given_back s shared h), get-pop m k j)
]
writer-give_back m k j h exclusive = elim (Option-cases (Dict.get m k)) [
  | inl e ↦ ground (arith, eq_iff k j)
  | inr (s, e) ↦ ground (arith, eq_iff k j, get-put m k j (given_back s exclusive h), get-pop m k j)
]

-- how often a key stands in a list
unfoldable pub occurrences : String → List String → ℕ
occurrences j [] = 0
occurrences j (k ∷ ks) = if k == j then occurrences j ks + 1 else occurrences j ks

abbrev pub is_shared : LeaseMode → Bool
is_shared shared = true
is_shared exclusive = false

pub readers-take_all :
    (m : Manager) (ks : List String) (j h : String) (mode : LeaseMode)
    → readers (take_all m ks mode h) j
      ≡ (if is_shared mode then readers m j + occurrences j ks else readers m j)
unfolding take_all occurrences
readers-take_all m [] j h shared = omega arith
readers-take_all m [] j h exclusive = refl
readers-take_all m (k ∷ ks) j h shared = ground (
  arith,
  readers-take_all (take m k shared h) ks j h shared,
  state-take m k j h shared,
  eq_iff k j,
)
readers-take_all m (k ∷ ks) j h exclusive = ground (
  arith,
  readers-take_all (take m k exclusive h) ks j h exclusive,
  state-take m k j h exclusive,
  eq_iff k j,
)

abbrev written : LeaseMode → Bool → Option String → String → Option String
written shared b w h = w
written exclusive true w h = some h
written exclusive false w h = w

pub writer-take_all :
    (m : Manager) (ks : List String) (j h : String) (mode : LeaseMode)
    → writer (take_all m ks mode h) j ≡ written mode (contains j ks) (writer m j) h
unfolding take_all
writer-take_all m [] j h shared = refl
writer-take_all m [] j h exclusive = refl
writer-take_all m (k ∷ ks) j h shared = ground (
  arith,
  writer-take_all (take m k shared h) ks j h shared,
  state-take m k j h shared,
  eq_iff k j,
)
writer-take_all m (k ∷ ks) j h exclusive = ground (
  arith,
  writer-take_all (take m k exclusive h) ks j h exclusive,
  state-take m k j h exclusive,
  eq_iff k j,
)

pub readers-release_keys :
    (m : Manager) (ks : List String) (j h : String) (mode : LeaseMode)
    → readers (release_keys m ks mode h) j
      ≡ (if is_shared mode then readers m j - occurrences j ks else readers m j)
unfolding release_keys occurrences
readers-release_keys m [] j h shared = omega arith
readers-release_keys m [] j h exclusive = refl
readers-release_keys m (k ∷ ks) j h shared = ground (
  arith,
  readers-release_keys (give_back m k shared h) ks j h shared,
  readers-give_back m k j h shared,
  eq_iff k j,
)
readers-release_keys m (k ∷ ks) j h exclusive = ground (
  arith,
  readers-release_keys (give_back m k exclusive h) ks j h exclusive,
  readers-give_back m k j h exclusive,
  eq_iff k j,
)

abbrev pub unwritten : LeaseMode → Bool → Option String → String → Option String
unwritten shared b w h = w
unwritten exclusive true w h = without_writer w h
unwritten exclusive false w h = w

pub writer-release_keys :
    (m : Manager) (ks : List String) (j h : String) (mode : LeaseMode)
    → writer (release_keys m ks mode h) j ≡ unwritten mode (contains j ks) (writer m j) h
unfolding release_keys
writer-release_keys m [] j h shared = refl
writer-release_keys m [] j h exclusive = refl
writer-release_keys m (k ∷ ks) j h shared = ground (
  arith,
  writer-release_keys (give_back m k shared h) ks j h shared,
  writer-give_back m k j h shared,
  eq_iff k j,
)
writer-release_keys m (k ∷ ks) j h exclusive = ground (
  arith,
  writer-release_keys (give_back m k exclusive h) ks j h exclusive,
  writer-give_back m k j h exclusive,
  eq_iff k j,
)
