-- ===== src/Outbox/Order.antt =====
-- The places of the events of a task (core/src/garis/kernel/outbox.py).
use garis.Base.{
  ℕ, ◌+◌, ◌≤◌, ◌<◌, String, Bool, true, false, none, List, [], ◌∷◌, ◌≡◌, refl, arith, nat_eq, ◌==◌,
  ◌&&◌, not, eq_iff, count, count-append, keep, map,
}
use garis.Outbox.{
  RuntimeEvent, OutboxRow, EventOutbox, last_sequence, staged, stage, commit, publish, mark, marked,
  drain, prune, is_pruned,
}

-- One operation on the outbox. `stops_midway` is a drain that crashes before it marks.
pub data Op : Type 0 where
  commits : Bool → String → String → String → String → ℕ → Op
  drains : ℕ → ℕ → Op
  stops_midway : ℕ → Op
  prunes : ℕ → Op

unfoldable pub step : EventOutbox → Op → EventOutbox
step o (commits committed topic t payload id now) = commit o committed topic t payload id now
step o (drains limit now) = (drain o limit now).1
step o (stops_midway limit) = (publish o limit).1
step o (prunes keep_after) = (prune o keep_after).0

unfoldable pub run : EventOutbox → List Op → EventOutbox
unfolding step
run o [] = o
run o (op ∷ ops) = run (step o op) ops

abbrev pub at_place : String → ℕ → OutboxRow → Bool
at_place t n r = r.event.task_id == t && nat_eq r.event.sequence n

-- how many rows of a task have a place
abbrev pub place_count : String → ℕ → EventOutbox → ℕ
place_count t n o = count (at_place t n) o.rows

past_last :
    (rows : List OutboxRow) (t : String) (n : ℕ)
    → last_sequence rows t < n
    → count (at_place t n) rows ≡ 0
unfolding last_sequence
past_last [] t n h = refl
past_last (r ∷ rows) t n h = ground (arith, past_last rows t n)

commit-place :
    (o : EventOutbox) (c : Bool) (topic u payload id : String) (now : ℕ) (t : String) (n : ℕ)
    → place_count t n o ≤ 1
    → place_count t n (commit o c topic u payload id now) ≤ 1
unfolding commit stage
commit-place o false topic u payload id now t n h = h
commit-place o true topic u payload id now t n h = ground (
  arith,
  count-append (at_place t n) o.rows
      (record { event = staged o.rows topic u payload id now; published_at = none } ∷ []),
  past_last o.rows u (last_sequence o.rows u + 1),
  eq_iff u t,
)

mark-place :
    (rows : List OutboxRow) (es : List RuntimeEvent) (now : ℕ) (t : String) (n : ℕ)
    → count (at_place t n) (map (marked es now) rows) ≡ count (at_place t n) rows
mark-place [] es now t n = refl
mark-place (r ∷ rows) es now t n = ground (arith, mark-place rows es now t n)

prune-place :
    (rows : List OutboxRow) (p : OutboxRow → Bool) (t : String) (n : ℕ)
    → count (at_place t n) (keep p rows) ≤ count (at_place t n) rows
prune-place [] p t n = omega arith
prune-place (r ∷ rows) p t n = ground (arith, prune-place rows p t n)

step-place :
    (o : EventOutbox) (op : Op) (t : String) (n : ℕ)
    → place_count t n o ≤ 1
    → place_count t n (step o op) ≤ 1
unfolding step drain publish mark prune
step-place o (commits c topic u payload id now) t n h =
    commit-place o c topic u payload id now t n h
step-place o (drains limit now) t n h =
    ground (arith, mark-place o.rows (publish o limit).0 now t n)
step-place o (stops_midway limit) t n h = ground arith
step-place o (prunes keep_after) t n h =
    ground (arith, prune-place o.rows (λ r. not (is_pruned keep_after r)) t n)

-- Whatever is committed, rolled back, drained, cut off in a drain and pruned, no two rows of one task
-- have the same place.
pub run-place_count :
    (o : EventOutbox) (ops : List Op) (t : String) (n : ℕ)
    → place_count t n o ≤ 1
    → place_count t n (run o ops) ≤ 1
unfolding run
run-place_count o [] t n h = h
run-place_count o (op ∷ ops) t n h = run-place_count (step o op) ops t n (step-place o op t n h)
