-- ===== src/Approvals/Pending.antt =====
-- The user is asked once (core/src/garis/runtime/approvals.py).
use garis.Base.{ℕ, ◌≤◌, ◌≡◌, String, Bool, List, [], ◌∷◌, arith, eq_iff, count, count-append}
use garis.Approvals.{
  ApprovalRequest, Ask, Broker, returned, new_request, request, resolve, resolved, consume, spent,
  expire_older_than, waits_for,
}
use garis.Approvals.Counts.{latest-none, latest-insert, count-update-le, count-expire-le}

-- One call on the broker.
pub data Call : Type 0 where
  requests : Ask → String → ℕ → Call
  resolves : String → Bool → String → ℕ → Call
  consumes : String → Call
  expires : ℕ → Call

unfoldable pub call : Broker → Call → Broker
call b (requests a id now) = (request b a id now).1
call b (resolves id yes' by now) = (resolve b id yes' by now).1
call b (consumes id) = consume b id
call b (expires cutoff) = (expire_older_than b cutoff).0

unfoldable pub run : Broker → List Call → Broker
unfolding call
run b [] = b
run b (c ∷ calls) = run (call b c) calls

abbrev pub pending_count : String → Broker → ℕ
pending_count fingerprint b = count (waits_for fingerprint) b.rows

request-pending :
    (b : Broker) (a : Ask) (id f : String) (now : ℕ)
    → pending_count f b ≤ 1
    → pending_count f (request b a id now).1 ≤ 1
unfolding request
request-pending b a id f now h = ground (
  arith,
  latest-none (waits_for a.fingerprint) (λ r. r.requested_at) b.rows,
  count-append (waits_for f) b.rows (new_request a id now ∷ []),
  eq_iff a.fingerprint f,
)

pub call-pending_count :
    (b : Broker) (c : Call) (fingerprint : String)
    → pending_count fingerprint b ≤ 1
    → pending_count fingerprint (call b c) ≤ 1
unfolding call resolve consume expire_older_than
call-pending_count b (requests a id now) f h = request-pending b a id f now h
call-pending_count b (resolves id yes' by now) f h = ground (
  arith,
  count-update-le (waits_for f) b.rows id (resolved yes' now by) (λ r p. absurd (ground arith)),
)
call-pending_count b (consumes id) f h =
    ground (arith, count-update-le (waits_for f) b.rows id spent (λ r p. p))
call-pending_count b (expires cutoff) f h =
    ground (arith, count-expire-le (waits_for f) b.rows cutoff (λ r p. ground arith))

-- Whatever is asked, answered, spent and expired, at most one question about one operation is open.
pub run-pending_count :
    (b : Broker) (calls : List Call) (fingerprint : String)
    → pending_count fingerprint b ≤ 1
    → pending_count fingerprint (run b calls) ≤ 1
unfolding run
run-pending_count b [] f h = h
run-pending_count b (c ∷ calls) f h =
    run-pending_count (call b c) calls f (call-pending_count b c f h)

-- A request for an operation returns a question, and the next request for the same operation returns
-- the same question and changes nothing: the user is not asked again while the question is open.
pub request_again :
    (b b' : Broker) (a a' : Ask) (id id' : String) (now now' : ℕ) (r : ApprovalRequest)
    → request b a id now ≡ (returned r, b')
    → a'.fingerprint ≡ a.fingerprint
    → request b' a' id' now' ≡ (returned r, b')
unfolding request
request_again b b' a a' id id' now now' r e same = ground (
  arith,
  latest-insert (waits_for a.fingerprint) (λ x. x.requested_at) b.rows (new_request a id now),
  eq_iff a.fingerprint a.fingerprint,
)
