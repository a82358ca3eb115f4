-- ===== src/RateLimit/PerIp.antt =====
-- pkg/webhook/ratelimiter.go: one sliding window for each address. Times are Unix milliseconds and
-- never lie before a stored time. The ticker goroutine of `startCleanup` is `cleanup` at each tick.
pub mod Windows
pub mod Retry
use ranyaa.Base.{
  ℕ, zero, suc, ◌+◌, ◌-◌, ◌*◌, ◌/◌, ◌≤◌, ◌<◌, ◌≡◌, refl, sym, ap, ◌∙◌, inl, inr, String, Bool, true,
  false, Option, none, some, List, [], ◌∷◌, ◌++◌, arith, ltb, leb, ◌==◌, tally, keep, length,
  if◌then◌else◌, Bool-cases, Option-cases, Map, lookup, insert, IsMap, lookup-insert,
  lookup-insert_self, lookup-insert_ne, str_eq, eq_iff,
}
use ranyaa.RateLimit.{
  is_recent, is_within, IsLimited, IsLimited-keep, IsLimited-later, IsLimited-accept,
}

pub record RateLimitState : Type 0 where
  pub requests : List ℕ
  pub window_start : ℕ

pub record RateLimiter : Type 0 where
  pub limits : Map RateLimitState
  pub max_requests_per_min : ℕ

unfoldable pub new_rate_limiter : ℕ → RateLimiter
new_rate_limiter max_requests_per_minute = record {
  limits = [];
  max_requests_per_min = max_requests_per_minute;
}

-- now - reqTime < 60000
abbrev pub is_valid : ℕ → ℕ → Bool
is_valid now request = ltb (now - request) 60000

-- the state of an address, or a new one
abbrev state_or_new : ℕ → Option RateLimitState → RateLimitState
state_or_new now none = record { requests = []; window_start = now }
state_or_new now (some state) = state

-- the window of one address: the old requests go, and the new one is counted or refused
unfoldable pub check_state : ℕ → ℕ → RateLimitState → RateLimitState × Bool
check_state now maximum state =
    let valid = keep (is_valid now) state.requests in
    if leb maximum (length valid)
    then (record state { requests = valid }, false)
    else (record state { requests = valid ++ now ∷ [] }, true)

unfoldable pub check_limit : String → ℕ → RateLimiter → RateLimiter × Bool
check_limit ip now rl =
    let (state, allowed) =
      check_state now rl.max_requests_per_min (state_or_new now (lookup ip rl.limits)) in
    (record rl { limits = insert ip state rl.limits }, allowed)

-- 60000 - (now - oldest), or 0 where that is negative, in seconds and rounded up
unfoldable pub retry_after_list : List ℕ → ℕ → ℕ
retry_after_list [] now = 0
retry_after_list (oldest ∷ rest) now =
    if ltb 60000 (now - oldest) then 0 else (60000 - (now - oldest) + 999) / 1000

unfoldable pub retry_after_state : Option RateLimitState → ℕ → ℕ
retry_after_state none now = 0
retry_after_state (some state) now = retry_after_list state.requests now

unfoldable pub get_retry_after : String → ℕ → RateLimiter → ℕ
unfolding retry_after_state retry_after_list
get_retry_after ip now rl = retry_after_state (lookup ip rl.limits) now

unfoldable pub is_nil_list : List ℕ → Bool
is_nil_list [] = true
is_nil_list (_ ∷ _) = false

unfoldable pub cleanup_entries : ℕ → Map RateLimitState → Map RateLimitState
cleanup_entries now [] = []
cleanup_entries now ((ip, state) ∷ more) =
    let rest = cleanup_entries now more in
    let valid = keep (is_valid now) state.requests in
    if is_nil_list valid then rest else (ip, record state { requests = valid }) ∷ rest

pub cleanup_limits : ℕ → RateLimiter → RateLimiter
unfolding cleanup_entries is_nil_list
cleanup_limits now rl = record rl { limits = cleanup_entries now rl.limits }

-- the requests that the limiter remembers of an address
abbrev pub remembered : String → RateLimiter → List ℕ
remembered ip rl = (state_or_new 0 (lookup ip rl.limits)).requests

-- What reaches the limiter: a request of an address, or a tick of the cleanup.
pub data Visit : Type 0 where
  request : String → ℕ → Visit
  tick : ℕ → Visit

-- The limiter and the accepted requests, the last one first.
pub record Guarded : Type 0 where
  pub limiter : RateLimiter
  pub accepted : List (String × ℕ)

pub handle_visit : Visit → Guarded → Guarded
unfolding check_limit cleanup_limits
handle_visit (request ip now) g =
    let (rl, allowed) = check_limit ip now g.limiter in
    record { limiter = rl; accepted = if allowed then (ip, now) ∷ g.accepted else g.accepted }
handle_visit (tick now) g = record g { limiter = cleanup_limits now g.limiter }

pub guard : List Visit → Guarded → Guarded
guard [] g = g
guard (v ∷ more) g = guard more (handle_visit v g)

-- The clock does not go back.
abbrev pub InOrder : ℕ → List Visit → Type 0
InOrder last [] = Unit {0}
InOrder last (request ip now ∷ more) = (last ≤ now) × InOrder now more
InOrder last (tick now ∷ more) = (last ≤ now) × InOrder now more

-- the times of the accepted requests of one address
abbrev pub times_of : String → List (String × ℕ) → List ℕ
times_of ip [] = []
times_of ip ((j, t) ∷ more) = let rest = times_of ip more in if str_eq j ip then t ∷ rest else rest
