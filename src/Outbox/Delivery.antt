-- ===== src/Outbox/Delivery.antt =====
-- At-least-once delivery (core/src/garis/kernel/outbox.py).
use garis.Base.{
  ℕ, String, Bool, true, false, none, List, [], ◌∷◌, ◌++◌, ◌≡◌, ◌∙◌, refl, arith, ◌==◌, ◌&&◌, ◌||◌,
  not, eq_iff, any, contains, count, keep, map, if◌then◌else◌,
}
use garis.Outbox.{
  RuntimeEvent, OutboxRow, EventOutbox, staged, stage, commit, publish, mark, marked, drain, prune,
  is_pruned, unpublished, ids, pending, unseen, deduplicate,
}
use garis.Outbox.Order.{Op, commits, drains, stops_midway, prunes, step, run}

abbrev pub waits : String → OutboxRow → Bool
waits id r = r.event.event_id == id && unpublished r

-- The event was given to the bus, or its row waits to be published.
abbrev pub is_safe : String → EventOutbox → Bool
is_safe id o = contains id (ids o.emitted) || any (waits id) o.rows

ids-append :
    (id : String) (xs ys : List RuntimeEvent)
    → contains id (ids (xs ++ ys)) ≡ (contains id (ids xs) || contains id (ids ys))
ids-append id [] ys = refl
ids-append id (x ∷ xs) ys = ground (arith, ids-append id xs ys)

any-append :
    (p : OutboxRow → Bool) (xs ys : List OutboxRow) → any p (xs ++ ys) ≡ (any p xs || any p ys)
any-append p [] ys = refl
any-append p (x ∷ xs) ys = ground (arith, any-append p xs ys)

mark_waits :
    (rows : List OutboxRow) (es : List RuntimeEvent) (now : ℕ) (id : String)
    → (contains id (ids es) || any (waits id) (map (marked es now) rows))
      ≡ (contains id (ids es) || any (waits id) rows)
mark_waits [] es now id = refl
mark_waits (r ∷ rows) es now id =
    ground (arith, mark_waits rows es now id, eq_iff r.event.event_id id)

prune_waits :
    (rows : List OutboxRow) (keep_after : ℕ) (id : String)
    → any (waits id) (keep (λ r. not (is_pruned keep_after r)) rows) ≡ any (waits id) rows
prune_waits [] keep_after id = refl
prune_waits (r ∷ rows) keep_after id = ground (arith, prune_waits rows keep_after id)

commit_safe :
    (o : EventOutbox) (c : Bool) (topic t payload id x : String) (now : ℕ)
    → is_safe x o ≡ true
    → is_safe x (commit o c topic t payload id now) ≡ true
unfolding commit stage
commit_safe o false topic t payload id x now h = h
commit_safe o true topic t payload id x now h = ground (
  arith,
  any-append (waits x) o.rows
      (record { event = staged o.rows topic t payload id now; published_at = none } ∷ []),
)

committed_safe :
    (o : EventOutbox) (topic t payload id : String) (now : ℕ)
    → is_safe id (step o (commits true topic t payload id now)) ≡ true
unfolding step commit stage
committed_safe o topic t payload id now = ground (
  arith,
  eq_iff id id,
  any-append (waits id) o.rows
      (record { event = staged o.rows topic t payload id now; published_at = none } ∷ []),
)

step_safe :
    (o : EventOutbox) (op : Op) (x : String)
    → o.has_bus ≡ true
    → is_safe x o ≡ true
    → is_safe x (step o op) ≡ true
unfolding step drain publish mark prune
step_safe o (commits c topic t payload id now) x b h = commit_safe o c topic t payload id x now h
step_safe o (drains limit now) x b h = rw b (
    ground (
      arith,
      ids-append x o.emitted (pending o.rows limit),
      mark_waits o.rows (pending o.rows limit) now x,
    ))
step_safe o (stops_midway limit) x b h =
    rw b (ground (arith, ids-append x o.emitted (pending o.rows limit)))
step_safe o (prunes keep_after) x b h = ground (arith, prune_waits o.rows keep_after x)

-- no operation takes the bus away
step-bus : (o : EventOutbox) (op : Op) → (step o op).has_bus ≡ o.has_bus
unfolding step drain publish mark prune commit
step-bus o (commits true topic t payload id now) = refl
step-bus o (commits false topic t payload id now) = refl
step-bus o (drains limit now) = ground arith
step-bus o (stops_midway limit) = ground arith
step-bus o (prunes keep_after) = refl

run_safe :
    (o : EventOutbox) (ops : List Op) (x : String)
    → o.has_bus ≡ true
    → is_safe x o ≡ true
    → is_safe x (run o ops) ≡ true
unfolding run
run_safe o [] x b h = h
run_safe o (op ∷ ops) x b h = run_safe (step o op) ops x (step-bus o op ∙ b) (step_safe o op x b h)

-- In an outbox that has a bus, no committed event is lost: after its transaction committed, through any
-- further commits, drains, drains cut off before the marking and prunes, the event was given to the bus
-- or still waits for it.
pub run_delivers :
    (o : EventOutbox) (topic t payload id : String) (now : ℕ) (ops : List Op)
    → o.has_bus ≡ true
    → is_safe id (run o (commits true topic t payload id now ∷ ops)) ≡ true
unfolding run
run_delivers o topic t payload id now ops b =
    let op = commits true topic t payload id now in
    run_safe (step o op) ops id (step-bus o op ∙ b) (committed_safe o topic t payload id now)

abbrev pub id_count : String → List RuntimeEvent → ℕ
id_count id es = count (λ e. e.event_id == id) es

id_count-unseen :
    (seen : List String) (es : List RuntimeEvent) (id : String)
    → id_count id (unseen seen es)
      ≡ (if not (contains id seen) && contains id (ids es) then 1 else 0)
unfolding unseen
id_count-unseen seen [] id = ground arith
id_count-unseen seen (e ∷ es) id = ground (
  arith,
  id_count-unseen seen es id,
  id_count-unseen (e.event_id ∷ seen) es id,
  eq_iff e.event_id id,
)

-- What a consumer keeps has each delivered event exactly once, and no other.
pub id_count-deduplicate :
    (es : List RuntimeEvent) (id : String)
    → id_count id (deduplicate es) ≡ (if contains id (ids es) then 1 else 0)
unfolding deduplicate
id_count-deduplicate es id = id_count-unseen [] es id
