-- ===== src/Outbox.antt =====
-- The event outbox: core/src/garis/kernel/outbox.py, with `RuntimeEvent` of kernel/contracts.py.
-- The state is the table `event_outbox` in order of insertion, whether there is a bus, and the events
-- that it was given;
-- new ids and times are arguments, the payload is its text. `drain` is its two halves, the events given
-- to the bus and the marking of their rows, since a crash may fall between them.
pub mod Order
pub mod Delivery
mod Tests
use garis.Base.{
  ℕ, zero, suc, ◌+◌, String, Bool, true, false, Option, none, some, List, [], ◌∷◌, ◌++◌, max, ltb,
  leb, ◌==◌, ◌&&◌, ◌||◌, not, is_some, if◌then◌else◌, keep, map, length, contains,
}

pub record RuntimeEvent : Type 0 where
  pub event_id : String
  pub topic : String
  pub task_id : String
  pub sequence : ℕ
  pub occurred_at : ℕ
  pub payload : String

pub record OutboxRow : Type 0 where
  pub event : RuntimeEvent
  pub published_at : Option ℕ

pub record EventOutbox : Type 0 where
  pub rows : List OutboxRow
  pub has_bus : Bool
  pub emitted : List RuntimeEvent

-- COALESCE(MAX(sequence), 0) over the rows of a task
unfoldable pub last_sequence : List OutboxRow → String → ℕ
last_sequence [] t = 0
last_sequence (r ∷ rows) t =
    let rest = last_sequence rows t in
    if r.event.task_id == t then max r.event.sequence rest else rest

abbrev pub staged : List OutboxRow → String → String → String → String → ℕ → RuntimeEvent
staged rows topic t payload id now = record {
  event_id = id;
  topic = topic;
  task_id = t;
  sequence = last_sequence rows t + 1;
  occurred_at = now;
  payload = payload;
}

-- `stage`: the event and the table with its row
unfoldable pub stage :
    List OutboxRow → String → String → String → String → ℕ → RuntimeEvent × List OutboxRow
unfolding last_sequence
stage rows topic t payload id now =
    let e = staged rows topic t payload id now in
    (e, rows ++ record { event = e; published_at = none } ∷ [])

-- `record`: a stage in a transaction of its own, which commits or leaves the table alone
unfoldable pub commit : EventOutbox → Bool → String → String → String → String → ℕ → EventOutbox
unfolding stage
commit o committed topic t payload id now =
    if committed then record o { rows = (stage o.rows topic t payload id now).1 } else o

-- ORDER BY occurred_at, sequence
abbrev pub comes_first : RuntimeEvent → RuntimeEvent → Bool
comes_first a b =
    ltb a.occurred_at b.occurred_at
    || (not (ltb b.occurred_at a.occurred_at) && leb a.sequence b.sequence)

unfoldable pub insert_by :
    (RuntimeEvent → RuntimeEvent → Bool) → RuntimeEvent → List RuntimeEvent → List RuntimeEvent
insert_by le e [] = e ∷ []
insert_by le e (x ∷ xs) = let rest = insert_by le e xs in if le e x then e ∷ x ∷ xs else x ∷ rest

unfoldable pub sort_by :
    (RuntimeEvent → RuntimeEvent → Bool) → List RuntimeEvent → List RuntimeEvent
unfolding insert_by
sort_by le [] = []
sort_by le (e ∷ es) = insert_by le e (sort_by le es)

abbrev pub take : ℕ → List RuntimeEvent → List RuntimeEvent
take n [] = []
take zero (x ∷ xs) = []
take (suc n) (x ∷ xs) = x ∷ take n xs

abbrev pub unpublished : OutboxRow → Bool
unpublished r = not (is_some r.published_at)

abbrev pub event_of : OutboxRow → RuntimeEvent
event_of r = r.event

-- `pending`
unfoldable pub pending : List OutboxRow → ℕ → List RuntimeEvent
unfolding sort_by
pending rows limit = take limit (sort_by comes_first (map event_of (keep unpublished rows)))

abbrev pub ids : List RuntimeEvent → List String
ids es = map (λ e. e.event_id) es

-- the first half of `drain`: the pending events go to the bus, if there is one
unfoldable pub publish : EventOutbox → ℕ → List RuntimeEvent × EventOutbox
unfolding pending
publish o limit = (
  pending o.rows limit,
  if o.has_bus then record o { emitted = o.emitted ++ pending o.rows limit } else o,
)

abbrev pub marked : List RuntimeEvent → ℕ → OutboxRow → OutboxRow
marked es now r =
    if contains r.event.event_id (ids es) then record r { published_at = some now } else r

-- the second half: their rows are marked
unfoldable pub mark : EventOutbox → List RuntimeEvent → ℕ → EventOutbox
mark o es now = record o { rows = map (marked es now) o.rows }

unfoldable pub drain : EventOutbox → ℕ → ℕ → List RuntimeEvent × EventOutbox
unfolding publish mark
drain o limit now = ((publish o limit).0, mark (publish o limit).1 (publish o limit).0 now)

-- `history`: ORDER BY sequence over the rows of a task
unfoldable pub history : List OutboxRow → String → List RuntimeEvent
unfolding sort_by
history rows t =
    sort_by (λ a b. leb a.sequence b.sequence)
      (map event_of (keep (λ r. r.event.task_id == t) rows))

abbrev pub is_pruned : ℕ → OutboxRow → Bool
is_pruned keep_after r = is_some r.published_at && ltb r.event.occurred_at keep_after

-- `prune`, with the number of deleted rows
unfoldable pub prune : EventOutbox → ℕ → EventOutbox × ℕ
prune o keep_after = (
  record o { rows = keep (λ r. not (is_pruned keep_after r)) o.rows },
  length (keep (is_pruned keep_after) o.rows),
)

-- `deduplicate`, with the ids seen so far
unfoldable pub unseen : List String → List RuntimeEvent → List RuntimeEvent
unseen seen [] = []
unseen seen (e ∷ es) =
    let rest = unseen seen es in
    let rest_seen = unseen (e.event_id ∷ seen) es in
    if contains e.event_id seen then rest else e ∷ rest_seen

unfoldable pub deduplicate : List RuntimeEvent → List RuntimeEvent
unfolding unseen
deduplicate es = unseen [] es
