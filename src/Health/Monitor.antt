-- ===== src/Health/Monitor.antt =====
-- The cached health of the providers (core/src/garis/models/health.py).
use garis.Base.{
  ℕ, zero, suc, ◌+◌, ◌<◌, String, Bool, true, false, Option, ◌≡◌, refl, arith, leb, ◌==◌, eq_refl,
  if◌then◌else◌,
}
use garis.Dict
use garis.Health.{
  unknown, ProviderHealth, HealthMonitor, Exc, with_status, network_timeout, network_unreachable,
  Probe, no_probe, failed_probe, answered, usable_at, usable, status_of, stale, store, found,
  measured, check, note_failure, classify_exception, classify_response, without_probe, is_ok,
  reopens, same,
}
use garis.Health.Answers.{classified_usable}

status-store :
    (m : HealthMonitor) (h : ProviderHealth) (name : String)
    → status_of (store m h) name ≡ (if h.provider == name then h else status_of m name)
unfolding status_of store
status-store m h name = ground (arith, Dict.get-put m.states h.provider name h)

status-store_own : (m : HealthMonitor) (h : ProviderHealth) → status_of (store m h) h.provider ≡ h
status-store_own m h = ground (arith, status-store m h h.provider, eq_refl h.provider)

status-store_other :
    (m : HealthMonitor) (h : ProviderHealth) (name : String)
    → (h.provider == name) ≡ false
    → status_of (store m h) name ≡ status_of m name
status-store_other m h name n = ground (arith, status-store m h name)

-- the exception carries the status of a success
abbrev pub claims_success : Exc → Bool
claims_success (with_status status text) = is_ok status
claims_success _ = false

module _ (lower : String → String) (within : String → String → Bool)
    (digits : String → Option ℕ) where
  -- the moment at which a limited provider is tried again lies ahead
  limit_later :
      (header : String) (now : ℕ) → leb (reopens lower within digits header now) now ≡ false
  limit_later header now = ground arith

  noted :
      (name : String) (failures : ℕ) (exc : Exc) (now : ℕ)
      → claims_success exc ≡ false
      → usable_at (found name (classify_exception lower within digits exc now) now failures) now
        ≡ false
  unfolding classify_exception usable_at
  noted name failures network_timeout now h = refl
  noted name failures network_unreachable now h = refl
  noted name failures (with_status zero text) now h = refl
  noted name failures (with_status (suc n) text) now h =
      ground
        (arith, limit_later "" now, classified_usable lower within digits (suc n) text "" now now)

  -- A failure seen during real work closes the provider at once, if the exception does not carry the
  -- status of a success, counts one failure more, and leaves what is known of the others alone.
  pub note_failure_closes :
      (m : HealthMonitor) (name : String) (exc : Exc) (now : ℕ)
      → claims_success exc ≡ false
      → (usable (note_failure lower within digits m name exc now) name now ≡ false)
        × ((status_of (note_failure lower within digits m name exc now) name).failures
            ≡ (status_of m name).failures + 1)
        × ((other : String)
            → (name == other) ≡ false
            → status_of (note_failure lower within digits m name exc now) other ≡ status_of m other)
  unfolding note_failure usable
  note_failure_closes m name exc now h =
      let h' =
        found name (classify_exception lower within digits exc now) now
          ((status_of m name).failures + 1) in
      let own = status-store_own m h' in
      (
        rw own (noted name ((status_of m name).failures + 1) exc now h),
        rw own refl,
        λ other n. status-store_other m h' other n,
      )

  classified_known :
      (status : ℕ) (body header : String) (now : ℕ)
      → same (classify_response lower within digits status body header now).status unknown ≡ false
  unfolding classify_response
  classified_known status body header now = ground arith

  exception_known :
      (exc : Exc) (now : ℕ)
      → same (classify_exception lower within digits exc now).status unknown ≡ false
  unfolding classify_exception
  exception_known network_timeout now = refl
  exception_known network_unreachable now = refl
  exception_known (with_status zero text) now = refl
  exception_known (with_status (suc n) text) now = classified_known (suc n) text "" now

  measured_facts :
      (m : HealthMonitor) (name : String) (p : Probe) (now : ℕ)
      → ((measured lower within digits m name p now).provider ≡ name)
        × ((measured lower within digits m name p now).checked_at ≡ now)
        × (same (measured lower within digits m name p now).status unknown ≡ false)
  unfolding measured without_probe
  measured_facts m name (no_probe true) now = (refl, refl, refl)
  measured_facts m name (no_probe false) now = (refl, refl, refl)
  measured_facts m name (failed_probe exc) now = (refl, refl, exception_known exc now)
  measured_facts m name (answered status body header) now =
      (refl, refl, classified_known status body header now)

  stored_own :
      (m : HealthMonitor) (name : String) (h : ProviderHealth)
      → h.provider ≡ name
      → status_of (store m h) name ≡ h
  stored_own m name h e = rw (← e) (status-store_own m h)

  still_fresh :
      (m : HealthMonitor) (name : String) (h : ProviderHealth) (again : ℕ)
      → status_of m name ≡ h
      → same h.status unknown ≡ false
      → again < h.checked_at + m.ttl
      → stale m name again ≡ false
  unfolding stale
  still_fresh m name h again e k l = rw e (ground arith)

  -- What a forced check measures is stored under the provider's name, and until the limit has passed a
  -- check without `force` returns just that and changes nothing, whatever the provider would answer.
  pub check_cached :
      (m : HealthMonitor) (name : String) (p q : Probe) (now later again then' : ℕ)
      → again < later + m.ttl
      → check lower within digits
          (check lower within digits m name p true now later).1
          name
          q
          false
          again
          then'
        ≡ check lower within digits m name p true now later
  unfolding check
  check_cached m name p q now later again then' l =
      let h = measured lower within digits m name p later in
      let (a, b, c) = measured_facts m name p later in
      let own = stored_own m name h a in
      let fresh = still_fresh (store m h) name h again own c (unfold store in rw b l) in
      rw (fresh, own) refl
