-- ===== src/Runtime/ViewLimits.antt =====
-- The limits on concurrent views: crates/metashrew-runtime/src/view_limits.rs. Times are in
-- milliseconds, the clock and the memory that the system has free are arguments; the semaphore is a
-- count of permits, and whether a permit is freed within the wait is an argument.
use metashrew.Prelude.{
  ℕ, zero, suc, ◌+◌, ◌-◌, ◌*◌, ◌≤◌, ◌<◌, ◌≡◌, ◌∙◌, ◌↔◌, ◌⊎◌, inl, inr, refl, ap, Bool-cases, leb→le,
  leb→lt, Bool, true, false, Option, none, some, List, [], ◌∷◌, ltb, leb, ◌==◌, if◌then◌else◌,
  arith,
}

pub record ViewLimitsConfig : Type 0 where
  pub view_concurrency : ℕ
  pub view_memory_bytes : ℕ
  pub view_memory_floor_bytes : ℕ
  pub memory_floor_refresh : ℕ
  pub acquire_timeout : ℕ

unfoldable pub default_config : ViewLimitsConfig
default_config = record {
  view_concurrency = 16;
  view_memory_bytes = 256 * 1024 * 1024;
  view_memory_floor_bytes = 8192 * 1024 * 1024;
  memory_floor_refresh = 1000;
  acquire_timeout = 30 * 1000;
}

pub data ViewAcquireError : Type 0 where
  saturated memory_floor closed : ViewAcquireError

pub record MemoryFloor : Type 0 where
  pub threshold_bytes : ℕ
  pub refresh_interval : ℕ
  pub available_bytes : ℕ
  pub last_refresh : ℕ

pub record ViewLimiter : Type 0 where
  pub config : ViewLimitsConfig
  pub floor : MemoryFloor
  pub available_permits : ℕ
  pub is_closed : Bool

unfoldable pub new_floor : ℕ → ℕ → (available now : ℕ) → MemoryFloor
new_floor threshold_bytes refresh_interval available now = record {
  threshold_bytes = threshold_bytes;
  refresh_interval = refresh_interval;
  available_bytes = available;
  last_refresh = now;
}

unfoldable pub enough : ℕ → ℕ → Option ViewAcquireError
enough available threshold = if leb threshold available then none else some memory_floor

-- `check`, of which `none` is `Ok`: with a fresh value, that decides; else it is read anew.
unfoldable pub check : MemoryFloor → (available now : ℕ) → Option ViewAcquireError × MemoryFloor
unfolding enough
check m available now =
    if ltb (now - m.last_refresh) m.refresh_interval
    then (enough m.available_bytes m.threshold_bytes, m)
    else (
      enough available m.threshold_bytes,
      record m { available_bytes = available; last_refresh = now },
    )

unfoldable pub override_available_memory : MemoryFloor → (bytes now : ℕ) → MemoryFloor
override_available_memory m bytes now = record m { available_bytes = bytes; last_refresh = now }

unfoldable pub set_threshold : MemoryFloor → ℕ → MemoryFloor
set_threshold m bytes = record m { threshold_bytes = bytes }

unfoldable pub new_limiter : ViewLimitsConfig → (available now : ℕ) → ViewLimiter
unfolding new_floor
new_limiter config available now = record {
  config = config;
  floor = new_floor config.view_memory_floor_bytes config.memory_floor_refresh available now;
  available_permits = config.view_concurrency;
  is_closed = false;
}

-- The acquisition of a permit; `freed` says whether one comes back within the wait, which the waiter
-- then takes at once.
take_permit : Bool → Bool → ViewLimiter → ℕ → Option ViewAcquireError × ViewLimiter
take_permit true freed l permits = (some closed, l)
take_permit false freed l (suc permits) = (none, record l { available_permits = permits })
take_permit false true l zero = (none, l)
take_permit false false l zero = (some saturated, l)

after_check :
    Bool
    → ViewLimiter
    → Option ViewAcquireError × MemoryFloor
    → Option ViewAcquireError × ViewLimiter
unfolding take_permit
after_check freed l (some e, m) = (some e, record l { floor = m })
after_check freed l (none, m) =
    take_permit l.is_closed freed (record l { floor = m }) l.available_permits

unfoldable pub acquire :
    ViewLimiter → (available now : ℕ) → (freed : Bool) → Option ViewAcquireError × ViewLimiter
unfolding check after_check
acquire l available now freed = after_check freed l (check l.floor available now)

-- What the limiter and its clients do: a view asks to run, or one that runs ends and drops its permit.
-- `frees` says whether one that runs ends while the view waits, if it has to wait.
pub data Event : Type 0 where
  request : (available now : ℕ) → (frees : Bool) → Event
  finish : Event

-- A permit comes back only from a view that runs.
comes_back : Bool → ℕ → Bool
comes_back frees zero = false
comes_back frees (suc others) = frees

-- The views that still run when one is let in: without a free permit, one of them has ended.
after_wait : Bool → (permits running : ℕ) → ℕ
after_wait freed permits running =
    if permits == 0 then (if freed then running - 1 else running) else running

granted : Bool → (permits running : ℕ) → Option ViewAcquireError × ViewLimiter → ViewLimiter × ℕ
unfolding after_wait
granted freed permits running (none, l) = (l, suc (after_wait freed permits running))
granted freed permits running (some e, l) = (l, running)

unfoldable pub happen : ViewLimiter × ℕ → Event → ViewLimiter × ℕ
unfolding granted acquire comes_back
happen (l, running) (request available now frees) =
    let freed = comes_back frees running in
    granted freed l.available_permits running (acquire l available now freed)
happen (l, zero) finish = (l, zero)
happen (l, suc running) finish = (record l { available_permits = l.available_permits + 1 }, running)

unfoldable pub run_events : ViewLimiter × ℕ → List Event → ViewLimiter × ℕ
run_events s [] = s
run_events s (e ∷ events) = run_events (happen s e) events

-- The free permits and the running views make up the configured number.
abbrev pub IsCounted : ViewLimiter × ℕ → Type 0
IsCounted s = s.0.available_permits + s.1 ≡ s.0.config.view_concurrency

comes_back_lt : (frees : Bool) (running : ℕ) → comes_back frees running ≡ true → 0 < running
unfolding comes_back
comes_back_lt frees zero e = absurd cc
comes_back_lt frees (suc others) e = omega arith

take_permit-IsCounted :
    (closed freed : Bool) (l : ViewLimiter) (running permits : ℕ)
    → permits + running ≡ l.config.view_concurrency
    → l.available_permits ≡ permits
    → (freed ≡ true → 0 < running)
    → IsCounted (granted freed permits running (take_permit closed freed l permits))
      × ((granted freed permits running (take_permit closed freed l permits)).0.config ≡ l.config)
unfolding granted take_permit after_wait
take_permit-IsCounted true freed l running permits h e back = (omega arith, refl)
take_permit-IsCounted false true l running zero h e back = (omega (arith, back refl), refl)
take_permit-IsCounted false false l running zero h e back = (omega arith, refl)
take_permit-IsCounted false true l running (suc permits) h e back = (ground arith, refl)
take_permit-IsCounted false false l running (suc permits) h e back = (ground arith, refl)

happen-IsCounted :
    (l : ViewLimiter) (running : ℕ) (e : Event)
    → IsCounted (l, running)
    → IsCounted (happen (l, running) e) × ((happen (l, running) e).0.config ≡ l.config)
unfolding happen acquire
happen-IsCounted l zero finish h = (h, refl)
happen-IsCounted l (suc running) finish h = (omega arith, refl)
happen-IsCounted l running (request available now frees) h = after (check l.floor available now)
  where
    after :
        (c : Option ViewAcquireError × MemoryFloor)
        → IsCounted (
            granted
              (comes_back frees running)
              l.available_permits
              running
              (after_check (comes_back frees running) l c))
          × ((granted
                (comes_back frees running)
                l.available_permits
                running
                (after_check (comes_back frees running) l c)).0.config
              ≡ l.config)
    after (some e, m) = (h, refl)
    after (none, m) =
        take_permit-IsCounted l.is_closed (comes_back frees running) (record l { floor = m })
          running l.available_permits h refl (comes_back_lt frees running)

run_events-IsCounted :
    (events : List Event) (l : ViewLimiter) (running : ℕ)
    → IsCounted (l, running)
    → IsCounted (run_events (l, running) events)
      × ((run_events (l, running) events).0.config ≡ l.config)
unfolding run_events
run_events-IsCounted [] l running h = (h, refl)
run_events-IsCounted (e ∷ events) l running h =
    let (counted, same) = happen-IsCounted l running e h in
    let (all, kept) =
      run_events-IsCounted events (happen (l, running) e).0 (happen (l, running) e).1 counted in
    (all, kept ∙ same)

-- From a new limiter, whatever the requests and the ends of views, also those that end while a
-- request waits and pass their permit on, the running views and the free permits make up the
-- configured concurrency, so that no more views run than that.
pub run_events_bounds :
    (config : ViewLimitsConfig) (available now : ℕ) (events : List Event)
    → let final : ViewLimiter × ℕ = run_events (new_limiter config available now, 0) events in
      (final.0.available_permits + final.1 ≡ config.view_concurrency)
      × (final.1 ≤ config.view_concurrency)
unfolding new_limiter
run_events_bounds config available now events =
    let (counted, same) =
      run_events-IsCounted events (new_limiter config available now) 0 (omega arith) in
    let sum = counted ∙ ap (λ (c : ViewLimitsConfig). c.view_concurrency) same in (sum, omega arith)

take_permit_iff :
    (closed freed : Bool) (l : ViewLimiter) (permits : ℕ)
    → ((take_permit closed freed l permits).0 ≡ none)
      ↔ ((closed ≡ false) × ((0 < permits) ⊎ (freed ≡ true)))
unfolding take_permit
take_permit_iff true freed l permits = (λ e. cc, λ h. cc)
take_permit_iff false true l zero = (λ e. (refl, inr refl), λ h. refl)
take_permit_iff false true l (suc permits) = (λ e. (refl, inr refl), λ h. refl)
take_permit_iff false false l zero =
    (λ e. cc, λ h. elim h.1 [ inl p ↦ absurd (omega arith) | inr p ↦ cc ])
take_permit_iff false false l (suc permits) = (λ e. (refl, inl (omega arith)), λ h. refl)

after_check_iff :
    (l : ViewLimiter) (freed : Bool) (m : MemoryFloor) (available threshold : ℕ)
    → ((after_check freed l (enough available threshold, m)).0 ≡ none) ↔ (
        (l.is_closed ≡ false)
        × ((0 < l.available_permits) ⊎ (freed ≡ true))
        × (threshold ≤ available))
unfolding after_check enough
after_check_iff l freed m available threshold =
    let taken = take_permit_iff l.is_closed freed (record l { floor = m }) l.available_permits in
    elim (Bool-cases (leb threshold available)) [
      | inl e ↦ rw e (
        λ got. ((taken.0 got).0, (taken.0 got).1, leb→le threshold available e),
        λ h. taken.1 (h.0, h.1),
      )
      | inr e ↦ rw e (λ got. cc, λ h. absurd (omega (arith, leb→lt threshold available e)))
    ]

-- A view gets a permit exactly if the limiter is open, a permit is free or comes back in time, and the
-- memory that counts, the last reading while that is fresh and a new one else, reaches the threshold.
pub acquire_iff :
    (l : ViewLimiter) (available now : ℕ) (freed : Bool)
    → ((acquire l available now freed).0 ≡ none) ↔ (
        (l.is_closed ≡ false)
        × ((0 < l.available_permits) ⊎ (freed ≡ true))
        × (l.floor.threshold_bytes ≤ (
            if ltb (now - l.floor.last_refresh) l.floor.refresh_interval
            then l.floor.available_bytes
            else available)))
unfolding acquire check
acquire_iff l available now freed =
    elim (Bool-cases (ltb (now - l.floor.last_refresh) l.floor.refresh_interval)) [
      | inl e ↦
          rw e (after_check_iff l freed l.floor l.floor.available_bytes l.floor.threshold_bytes)
      | inr e ↦ rw e (
          after_check_iff l freed
            (record l.floor { available_bytes = available; last_refresh = now }) available
            l.floor.threshold_bytes)
    ]
