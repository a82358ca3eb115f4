-- ===== src/RateLimit/Client.antt =====
-- pkg/gateway/ratelimiter.go: the limits of one client of the gateway, and the use that
-- pkg/gateway/server.go makes of them for each message of the client. Times are nanoseconds of the
-- process's monotonic clock. `windowStart` is stored and never read.
use ranyaa.Base.{
  ℕ, suc, ◌-◌, ◌*◌, ◌≤◌, ◌≡◌, refl, inl, inr, String, Bool, true, false, List, [], ◌∷◌, ◌++◌, arith,
  ltb, leb, tally, keep, length, length-keep-le, if◌then◌else◌, Bool-cases, bit, ap, ◌+◌, ◌<◌,
}
use ranyaa.RateLimit.{
  is_recent, is_within, IsLimited, IsLimited-keep, IsLimited-later, IsLimited-record,
}

-- time.Minute
abbrev pub minute : ℕ
minute = 60 * 1000000000

pub record ClientRateLimiter : Type 0 where
  pub requests_per_minute : ℕ
  pub max_concurrent : ℕ
  pub requests : List ℕ
  pub concurrent_requests : ℕ
  pub window_start : ℕ

unfoldable pub new_with_limits : ℕ → ℕ → ℕ → ClientRateLimiter
new_with_limits requests_per_minute max_concurrent now = record {
  requests_per_minute = requests_per_minute;
  max_concurrent = max_concurrent;
  requests = [];
  concurrent_requests = 0;
  window_start = now;
}

unfoldable pub new_client_rate_limiter : ℕ → ClientRateLimiter
unfolding new_with_limits
new_client_rate_limiter now = new_with_limits 60 10 now

-- reqTime.After(now.Add(-time.Minute)), for the requests that stay
unfoldable pub clean_up : ℕ → ClientRateLimiter → ClientRateLimiter
clean_up now r = record r { requests = keep (is_recent minute now) r.requests }

unfoldable pub check_request_allowed : ℕ → ClientRateLimiter → ClientRateLimiter × Bool × String
unfolding clean_up
check_request_allowed now r =
    if leb r.max_concurrent r.concurrent_requests
    then (r, false, "too many concurrent requests")
    else let r' = clean_up now r in
      if leb r'.requests_per_minute (length r'.requests)
      then (r', false, "rate limit exceeded")
      else (r', true, "")

unfoldable pub record_request_start : ℕ → ClientRateLimiter → ClientRateLimiter
record_request_start now r = record r {
  requests = r.requests ++ now ∷ [];
  concurrent_requests = suc r.concurrent_requests;
}

unfoldable pub record_request_end : ClientRateLimiter → ClientRateLimiter
record_request_end r =
    if ltb 0 r.concurrent_requests
    then record r { concurrent_requests = r.concurrent_requests - 1 }
    else r

pub update_limits : ℕ → ℕ → ClientRateLimiter → ClientRateLimiter
update_limits requests_per_minute max_concurrent r = record r {
  requests_per_minute = requests_per_minute;
  max_concurrent = max_concurrent;
}

pub get_stats : ℕ → ClientRateLimiter → ClientRateLimiter × ℕ × ℕ
unfolding clean_up
get_stats now r = let r' = clean_up now r in (r', length r'.requests, r'.concurrent_requests)

-- What happens to the limiter of a client: a message, the start and the end of a request, a look at
-- the statistics.
pub data Traffic : Type 0 where
  message started : ℕ → Traffic
  ended : Traffic
  stats : ℕ → Traffic

-- The limiter; the times at which requests were started, the last one first; whether the goroutine
-- that reads the client's messages stands between the check that a message has passed and the start
-- of its request; and the number of requests whose goroutine runs.
pub record Served : Type 0 where
  pub limiter : ClientRateLimiter
  pub accepted : List ℕ
  pub passed : Bool
  pub in_flight : ℕ

-- server.go: the check of a message. The messages of a client are read by one goroutine, so the next
-- one waits until the request of this one is started.
unfoldable pub check_message : ℕ → Served → Served
unfolding check_request_allowed
check_message now s =
    let (r, allowed, reason) = check_request_allowed now s.limiter in
    if s.passed then s else record s { limiter = r; passed = allowed }

-- server.go: RecordRequestStart, with its own look at the clock, and the goroutine of the request
unfoldable pub start_request : ℕ → Served → Served
unfolding record_request_start
start_request now s =
    if s.passed
    then record {
      limiter = record_request_start now s.limiter;
      accepted = now ∷ s.accepted;
      passed = false;
      in_flight = suc s.in_flight;
    }
    else s

-- server.go: the deferred RecordRequestEnd, with which the goroutine of a request ends
unfoldable pub end_request : Served → Served
unfolding record_request_end
end_request s =
    if ltb 0 s.in_flight
    then record s { limiter = record_request_end s.limiter; in_flight = s.in_flight - 1 }
    else s

unfoldable pub handle_traffic : Traffic → Served → Served
unfolding check_message start_request end_request get_stats
handle_traffic (message now) s = check_message now s
handle_traffic (started now) s = start_request now s
handle_traffic ended s = end_request s
handle_traffic (stats now) s = record s { limiter = (get_stats now s.limiter).0 }

unfoldable pub serve : List Traffic → Served → Served
serve [] s = s
serve (t ∷ more) s = serve more (handle_traffic t s)

-- The clock does not go back.
abbrev pub InOrder : ℕ → List Traffic → Type 0
InOrder last [] = Unit {0}
InOrder last (message now ∷ more) = (last ≤ now) × InOrder now more
InOrder last (started now ∷ more) = (last ≤ now) × InOrder now more
InOrder last (ended ∷ more) = InOrder last more
InOrder last (stats now ∷ more) = (last ≤ now) × InOrder now more

record IsFair (per_minute concurrent last : ℕ) (s : Served) : Type 0 where
  per_minute_kept : s.limiter.requests_per_minute ≡ per_minute
  concurrent_kept : s.limiter.max_concurrent ≡ concurrent
  counted : s.limiter.concurrent_requests ≡ s.in_flight
  running : s.in_flight + bit s.passed ≤ concurrent
  room : s.passed ≡ true → length s.limiter.requests < per_minute
  limited : IsLimited minute per_minute last s.limiter.requests s.accepted

module _ (per_minute concurrent last : ℕ) (s : Served)
    (h : IsFair per_minute concurrent last s) where
  later-IsFair : (now : ℕ) → last ≤ now → IsFair per_minute concurrent now s
  later-IsFair now le = record {
    per_minute_kept = h.per_minute_kept;
    concurrent_kept = h.concurrent_kept;
    counted = h.counted;
    running = h.running;
    room = h.room;
    limited = IsLimited-later minute per_minute last now s.limiter.requests s.accepted le h.limited;
  }

  -- a look at the window, after which a message may have passed
  cleaned-IsFair :
      (now : ℕ) (passed : Bool)
      → last ≤ now
      → s.in_flight + bit passed ≤ concurrent
      → (passed ≡ true → length (keep (is_recent minute now) s.limiter.requests) < per_minute)
      → IsFair per_minute concurrent now
          (record s { limiter = clean_up now s.limiter; passed = passed })
  unfolding clean_up
  cleaned-IsFair now passed le running room = record {
    per_minute_kept = h.per_minute_kept;
    concurrent_kept = h.concurrent_kept;
    counted = h.counted;
    running = running;
    room = room;
    limited = IsLimited-keep minute per_minute last now s.limiter.requests s.accepted le h.limited;
  }

  check_message-IsFair :
      (now : ℕ) → last ≤ now → IsFair per_minute concurrent now (check_message now s)
  unfolding check_message
  check_message-IsFair now le = elim (Bool-cases s.passed) [
    | inl e ↦ simp e (later-IsFair now le)
    | inr waiting ↦ elim (Bool-cases (leb s.limiter.max_concurrent s.limiter.concurrent_requests)) [
      | inl busy ↦
          rw (waiting, busy)
            record {
              per_minute_kept = h.per_minute_kept;
              concurrent_kept = h.concurrent_kept;
              counted = h.counted;
              running = omega (arith, h.running);
              room = λ impossible. cc;
              limited = (later-IsFair now le).limited;
            }
      | inr free ↦
          let full =
            leb s.limiter.requests_per_minute
              (length (keep (is_recent minute now) s.limiter.requests)) in
          elim (Bool-cases full) [
            | inl e ↦
                rw (waiting, free, e)
                  (cleaned-IsFair now false le (omega (arith, h.running)) (λ yes. cc))
            | inr e ↦
                rw (waiting, free, e)
                  (cleaned-IsFair now true le (ground (arith, h.counted, h.concurrent_kept))
                    (λ _. ground (arith, h.per_minute_kept)))
          ]
    ]
  ]

  start_request-IsFair :
      (now : ℕ) → last ≤ now → IsFair per_minute concurrent now (start_request now s)
  unfolding start_request
  start_request-IsFair now le = elim (Bool-cases s.passed) [
    | inr e ↦ simp e (later-IsFair now le)
    | inl e ↦ rw e record {
      per_minute_kept = h.per_minute_kept;
      concurrent_kept = h.concurrent_kept;
      counted = ap suc h.counted;
      running = ground (arith, h.running);
      room = λ impossible. cc;
      limited =
          IsLimited-record minute per_minute last now s.limiter.requests s.accepted (h.room e) le
            h.limited;
    }
  ]

  end_request-IsFair : IsFair per_minute concurrent last (end_request s)
  unfolding end_request
  end_request-IsFair = elim (Bool-cases (ltb 0 s.in_flight)) [
    | inr e ↦ rw e h
    | inl e ↦
        let counts : ltb 0 s.limiter.concurrent_requests ≡ true = rw h.counted e in
        rw (e, counts)
          record {
            per_minute_kept = h.per_minute_kept;
            concurrent_kept = h.concurrent_kept;
            counted = ap (λ n. n - 1) h.counted;
            running = omega (arith, h.running);
            room = h.room;
            limited = h.limited;
          }
  ]

  get_stats-IsFair :
      (now : ℕ) → last ≤ now → IsFair per_minute concurrent now (handle_traffic (stats now) s)
  unfolding handle_traffic
  get_stats-IsFair now le =
      cleaned-IsFair now s.passed le h.running
        (λ e. omega (arith, h.room e, length-keep-le (is_recent minute now) s.limiter.requests))

serve-IsFair :
    (per_minute concurrent : ℕ) (traffic : List Traffic) (last : ℕ) (s : Served)
    → InOrder last traffic
    → IsFair per_minute concurrent last s
    → (end : ℕ) × IsFair per_minute concurrent end (serve traffic s)
unfolding serve handle_traffic
serve-IsFair per_minute concurrent [] last s order h = (last, h)
serve-IsFair per_minute concurrent (message now ∷ more) last s order h =
    serve-IsFair per_minute concurrent more now (check_message now s) order.1
      (check_message-IsFair per_minute concurrent last s h now order.0)
serve-IsFair per_minute concurrent (started now ∷ more) last s order h =
    serve-IsFair per_minute concurrent more now (start_request now s) order.1
      (start_request-IsFair per_minute concurrent last s h now order.0)
serve-IsFair per_minute concurrent (ended ∷ more) last s order h =
    serve-IsFair per_minute concurrent more last (end_request s) order
      (end_request-IsFair per_minute concurrent last s h)
serve-IsFair per_minute concurrent (stats now ∷ more) last s order h =
    serve-IsFair per_minute concurrent more now (handle_traffic (stats now) s) order.1
      (get_stats-IsFair per_minute concurrent last s h now order.0)

abbrev pub fresh : ℕ → ℕ → Served
fresh per_minute concurrent = record {
  limiter = new_with_limits per_minute concurrent 0;
  accepted = [];
  passed = false;
  in_flight = 0;
}

-- Whatever the traffic of a client whose limits are not changed, if the clock does not go back, no
-- window of a minute holds more starts of requests than the limit of a minute, and the goroutines of
-- no more requests than the other limit run at a time; a message may come while requests run, and
-- time may pass between its check and the start of its request.
pub serve_limits :
    (per_minute concurrent : ℕ) (traffic : List Traffic)
    → InOrder 0 traffic
    → let s = serve traffic (fresh per_minute concurrent) in
      ((end : ℕ) → tally (is_within minute end) s.accepted ≤ per_minute)
      × (s.in_flight ≤ concurrent)
unfolding new_with_limits
serve_limits per_minute concurrent traffic order =
    let (end, h) =
      serve-IsFair per_minute concurrent traffic 0 (fresh per_minute concurrent) order (record {
        per_minute_kept = refl;
        concurrent_kept = refl;
        counted = refl;
        running = omega arith;
        room = λ impossible. cc;
        limited = record { complete = λ now le. omega arith; bounded = λ w. omega arith };
      }) in
    (h.limited.bounded, omega (arith, h.running))
