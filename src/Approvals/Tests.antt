-- ===== src/Approvals/Tests.antt =====
-- The broker at concrete calls.
use garis.Base.{◌≡◌, refl, [], ◌∷◌, none}
use garis.Rows
use garis.Approvals.{Broker, Ask, returned, new_request, request, latest, approval_requested}

abbrev empty : Broker
empty = record { rows = []; events = []; waiters = [] }

abbrev ask : Ask
ask = record {
  tool = "mail_send";
  prompt = "Wysłać?";
  fingerprint = "f";
  task_id = none;
  effects = "send_message" ∷ [];
  params = "{}";
}

abbrev asked : Broker
asked = record {
  rows = new_request ask "r1" 10 ∷ [];
  events = approval_requested "r1" ∷ [];
  waiters = [];
}

first_request : request empty ask "r1" 10 ≡ (returned (new_request ask "r1" 10), asked)
unfolding request latest Rows.find
first_request = refl
