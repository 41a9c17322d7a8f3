-- ===== src/Leases/Reentry.antt =====
-- Leases are not counted for each holder: a task that has a key exclusively is granted it again, as a
-- tool that calls another tool of the same task is, and the release of the inner lease lets the other
-- tasks in while the outer lease is still out (core/src/garis/runtime/leases.py).
use garis.Base.{◌≡◌, String, true, some, arith, eq_iff}
use garis.Leases.{Manager, shared, exclusive, can_take, take, give_back}
use garis.Leases.Table.{writer, readers, state-take, writer-give_back, readers-give_back}
use garis.Leases.Mutex.Invariant.{can_take-eq-admits}

-- If a holder has a key exclusively and nobody reads it, the holder may take it again, and when it
-- gives that second lease back any other holder may take the key, in either mode.
pub reentrant_release :
    (m : Manager) (k h h' : String)
    → writer m k ≡ some h
    → readers m k ≡ 0
    → (can_take m k exclusive h ≡ true)
      × (can_take (give_back (take m k exclusive h) k exclusive h) k exclusive h' ≡ true)
      × (can_take (give_back (take m k exclusive h) k exclusive h) k shared h' ≡ true)
reentrant_release m k h h' w r = (
  ground (arith, can_take-eq-admits m k h exclusive, eq_iff h h),
  ground (
    arith,
    can_take-eq-admits (give_back (take m k exclusive h) k exclusive h) k h' exclusive,
    writer-give_back (take m k exclusive h) k k h exclusive,
    readers-give_back (take m k exclusive h) k k h exclusive,
    state-take m k k h exclusive,
    eq_iff k k,
    eq_iff h h,
  ),
  ground (
    arith,
    can_take-eq-admits (give_back (take m k exclusive h) k exclusive h) k h' shared,
    writer-give_back (take m k exclusive h) k k h exclusive,
    readers-give_back (take m k exclusive h) k k h exclusive,
    state-take m k k h exclusive,
    eq_iff k k,
    eq_iff h h,
  ),
)
