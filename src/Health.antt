-- ===== src/Health.antt =====
-- Provider health: core/src/garis/models/health.py.
-- `lower`, `within` and `digits` stand for Python's `str.lower`, the `in` of texts, and the test and
-- conversion of a stripped text of digits. Times are whole seconds. The technical detail and the
-- latency of a check are not modelled, nor are other calls while a check awaits its answer; an
-- exception is its kind, its HTTP status and its text.
pub mod Answers
pub mod Monitor
mod Tests
use garis.Base.{
  ℕ, zero, suc, ◌+◌, ◌-◌, String, Bool, true, false, Option, none, some, List, [], ◌∷◌, ◌++◌, leb,
  ltb, nat_eq, not, ◌==◌, ◌&&◌, ◌||◌, if◌then◌else◌,
}
use garis.Dict
use garis.Dict.{Dict}

pub data ProviderStatus : Type 0 where
  online offline invalid_config invalid_key timeout rate_limit unknown : ProviderStatus

unfoldable pub reasons : ProviderStatus → String
reasons online = "Gotowy."
reasons offline = "Dostawca nie odpowiada."
reasons invalid_config = "Brak klucza."
reasons invalid_key = "Klucz odrzucony przez dostawcę."
reasons timeout = "Dostawca nie odpowiedział na czas."
reasons rate_limit = "Limit u dostawcy wyczerpany."
reasons unknown = "Jeszcze nie sprawdzałem."

pub record ProviderHealth : Type 0 where
  pub provider : String
  pub status : ProviderStatus
  pub reason : String
  pub checked_at : ℕ
  pub retry_after : ℕ
  pub failures : ℕ

-- `ProviderHealth(provider=name)`
abbrev pub not_checked : String → ProviderHealth
not_checked name = record {
  provider = name;
  status = unknown;
  reason = "";
  checked_at = 0;
  retry_after = 0;
  failures = 0;
}

abbrev pub usable_in : ProviderStatus → ℕ → ℕ → Bool
usable_in online retry_after now = true
usable_in unknown retry_after now = true
usable_in rate_limit retry_after now = not (nat_eq retry_after 0) && leb retry_after now
usable_in _ retry_after now = false

unfoldable pub usable_at : ProviderHealth → ℕ → Bool
usable_at h now = usable_in h.status h.retry_after now

unfoldable pub sentence : ProviderHealth → String
unfolding reasons
sentence h = if h.reason == "" then reasons h.status else h.reason

-- what `classify_response` returns
pub record Finding : Type 0 where
  pub status : ProviderStatus
  pub reason : String
  pub retry_after : ℕ

abbrev pub finding : ProviderStatus → Finding
finding status = record { status = status; reason = reasons status; retry_after = 0 }

-- `classify_exception` reads the kind of an exception, its `status` and its text
pub data Exc : Type 0 where
  network_timeout network_unreachable : Exc
  with_status : ℕ → String → Exc

abbrev pub is_ok : ℕ → Bool
is_ok status = leb 200 status && ltb status 300

module _ (lower : String → String) (within : String → String → Bool)
    (digits : String → Option ℕ) where
  -- `_retry_after`
  unfoldable pub retry_after_of : String → ℕ
  retry_after_of raw = elim (digits raw) [ none ↦ 0 | some n ↦ n ]

  -- the moment at which a limited provider is tried again
  abbrev pub reopens : String → ℕ → ℕ
  reopens header now =
      if nat_eq (retry_after_of header) 0 then now + 60 else now + retry_after_of header

  -- `header` is `headers.get("retry-after", "")`
  unfoldable pub classify_response : ℕ → String → String → ℕ → Finding
  unfolding reasons retry_after_of
  classify_response status body header now =
      if is_ok status
      then finding online
      else if nat_eq status 401 || nat_eq status 403
      then finding invalid_key
      else if nat_eq status 429
      then record {
        status = rate_limit;
        reason = reasons rate_limit;
        retry_after = reopens header now;
      }
      else if nat_eq status 402
          || (within "insufficient" (lower body) || within "billing" (lower body))
      then record {
        status = rate_limit;
        reason = "Brak środków na koncie u dostawcy.";
        retry_after = 0;
      }
      else if nat_eq status 400
      then (if within "api key" (lower body) || within "api_key" (lower body)
          then finding invalid_key
          else record {
            status = invalid_config;
            reason = "Dostawca odrzucił zapytanie.";
            retry_after = 0;
          })
      else if nat_eq status 404
      then record { status = invalid_config; reason = "Zły adres dostawcy."; retry_after = 0 }
      else if nat_eq status 408
      then finding timeout
      else finding offline

  unfoldable pub classify_exception : Exc → ℕ → Finding
  unfolding reasons classify_response
  classify_exception network_timeout now = finding timeout
  classify_exception network_unreachable now = finding offline
  classify_exception (with_status zero text) now = finding offline
  classify_exception (with_status (suc n) text) now = classify_response (suc n) text "" now

-- the event of a move: provider, status, previous status
pub record Moved : Type 0 where
  pub provider : String
  pub status : ProviderStatus
  pub reason : String
  pub was : ProviderStatus

pub record HealthMonitor : Type 0 where
  pub ttl : ℕ
  pub states : Dict ProviderHealth
  pub events : List Moved

abbrev or_unknown : String → Option ProviderHealth → ProviderHealth
or_unknown name none = not_checked name
or_unknown name (some h) = h

-- `HealthMonitor.status`
unfoldable pub status_of : HealthMonitor → String → ProviderHealth
status_of m name = or_unknown name (Dict.get m.states name)

unfoldable pub usable : HealthMonitor → String → ℕ → Bool
unfolding status_of usable_at
usable m name now = usable_at (status_of m name) now

abbrev pub rank : ProviderStatus → ℕ
rank online = 0
rank offline = 1
rank invalid_config = 2
rank invalid_key = 3
rank timeout = 4
rank rate_limit = 5
rank unknown = 6

abbrev pub same : ProviderStatus → ProviderStatus → Bool
same a b = nat_eq (rank a) (rank b)

-- `now - checked_at >= ttl`
unfoldable pub stale : HealthMonitor → String → ℕ → Bool
unfolding status_of
stale m name now =
    same (status_of m name).status unknown || leb ((status_of m name).checked_at + m.ttl) now

-- `forget`; no name forgets all
unfoldable pub forget : HealthMonitor → Option String → HealthMonitor
forget m none = record m { states = [] }
forget m (some name) = record m { states = Dict.pop m.states name }

abbrev pub moves : ProviderHealth → Option ProviderHealth → List Moved
moves h none =
    record { provider = h.provider; status = h.status; reason = sentence h; was = unknown } ∷ []
moves h (some previous) =
    if same previous.status h.status
    then []
    else record {
      provider = h.provider;
      status = h.status;
      reason = sentence h;
      was = previous.status;
    }
      ∷ []

-- `HealthMonitor.record`
unfoldable pub store : HealthMonitor → ProviderHealth → HealthMonitor
unfolding sentence
store m h = record m {
  states = Dict.put m.states h.provider h;
  events = m.events ++ moves h (Dict.get m.states h.provider);
}

abbrev pub found : String → Finding → ℕ → ℕ → ProviderHealth
found name f now failures = record {
  provider = name;
  status = f.status;
  reason = f.reason;
  checked_at = now;
  retry_after = f.retry_after;
  failures = failures;
}

-- what a provider can be asked: nothing, with its `available()`, or an address
pub data Probe : Type 0 where
  no_probe : Bool → Probe
  failed_probe : Exc → Probe
  answered : ℕ → String → String → Probe

-- `_without_probe`
unfoldable pub without_probe : HealthMonitor → String → Bool → ℕ → ProviderHealth
unfolding status_of reasons
without_probe m name true now =
    found name
      (record { status = online; reason = "Gotowy, nie wymaga sprawdzenia."; retry_after = 0 }) now
      0
without_probe m name false now =
    found name (finding invalid_config) now ((status_of m name).failures + 1)

module _ (lower : String → String) (within : String → String → Bool)
    (digits : String → Option ℕ) where
  unfoldable pub note_failure : HealthMonitor → String → Exc → ℕ → HealthMonitor
  unfolding store status_of
  note_failure m name exc now = store m (
      found name (classify_exception lower within digits exc now) now
        ((status_of m name).failures + 1))

  -- what a check that is made measures
  unfoldable pub measured : HealthMonitor → String → Probe → ℕ → ProviderHealth
  unfolding without_probe status_of
  measured m name (no_probe available) now = without_probe m name available now
  measured m name (failed_probe exc) now =
      found name (classify_exception lower within digits exc now) now
        ((status_of m name).failures + 1)
  measured m name (answered status body header) now =
      let f = classify_response lower within digits status body header now in
      found name f now (if same f.status online then 0 else (status_of m name).failures + 1)

  -- `check`: asked at `now`, answered at `later`
  unfoldable pub check :
      HealthMonitor → String → Probe → Bool → ℕ → ℕ → ProviderHealth × HealthMonitor
  unfolding stale status_of store measured
  check m name probe force now later =
      if not force && not (stale m name now)
      then (status_of m name, m)
      else (measured m name probe later, store m (measured m name probe later))

-- `unconfigured`; `now` is never 0
unfoldable pub unconfigured : String → String → ℕ → ProviderHealth
unfolding reasons
unconfigured name reason now = record {
  provider = name;
  status = invalid_config;
  reason = if reason == "" then reasons invalid_config else reason;
  checked_at = now;
  retry_after = 0;
  failures = 0;
}
