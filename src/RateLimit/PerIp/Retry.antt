-- ===== src/RateLimit/PerIp/Retry.antt =====
-- `GetRetryAfter`: the time that a refused client is told to wait.
use ranyaa.Base.{
  ℕ, ◌+◌, ◌-◌, ◌*◌, ◌≤◌, ◌<◌, ◌≡◌, refl, ap, ◌∙◌, inl, inr, String, true, false, Option, none, some,
  List, [], ◌∷◌, arith, ltb, leb, tally, tally-le-length, keep, length, length-keep-le, lookup,
  Bool-cases, Bool, not, ◌&&◌, IsMap, str_eq,
}
use ranyaa.RateLimit.PerIp.{
  RateLimitState, RateLimiter, is_valid, check_limit, get_retry_after, remembered,
  retry_after_state, retry_after_list, state_or_new, cleanup_limits, Visit, request, tick, Guarded,
  handle_visit, guard,
}
use ranyaa.RateLimit.PerIp.Windows.{
  valid_of, check_limit_full, check_limit_room, check_limit-IsMap, remembered-check_limit_ne,
  requests-cleanup_entries, cleanup_entries-IsMap, tally-keep-le,
}

retry_after_state-requests :
    (now : ℕ) (o : Option RateLimitState)
    → retry_after_state o now ≡ retry_after_list (state_or_new 0 o).requests now
unfolding retry_after_state retry_after_list
retry_after_state-requests now none = refl
retry_after_state-requests now (some state) = refl

get_retry_after-remembered :
    (ip : String) (now : ℕ) (rl : RateLimiter)
    → get_retry_after ip now rl ≡ retry_after_list (remembered ip rl) now
unfolding get_retry_after
get_retry_after-remembered ip now rl = retry_after_state-requests now (lookup ip rl.limits)

max_requests-check_limit :
    (ip : String) (now : ℕ) (rl : RateLimiter)
    → (check_limit ip now rl).0.max_requests_per_min ≡ rl.max_requests_per_min
unfolding check_limit
max_requests-check_limit ip now rl = refl

all-keep : (p : ℕ → Bool) (ts : List ℕ) → tally p (keep p ts) ≡ length (keep p ts)
all-keep p [] = refl
all-keep p (t ∷ ts) = ground (arith, all-keep p ts)

-- A full window has room again when its oldest request has left it.
room_after_wait :
    (now later maximum : ℕ) (ts : List ℕ)
    → 0 < maximum
    → length ts ≤ maximum
    → maximum ≤ length ts
    → tally (is_valid now) ts ≡ length ts
    → tally (λ t. ltb now t) ts ≡ 0
    → now + 1000 * retry_after_list ts now ≤ later
    → length (keep (is_valid later) ts) < maximum
unfolding retry_after_list
room_after_wait now later maximum [] pos fits full valid past waited = absurd (omega arith)
room_after_wait now later maximum (t ∷ ts) pos fits full valid past waited =
    let fresh : now - t < 60000 = ground (arith, tally-le-length (is_valid now) ts) in
    let seen : t ≤ now = ground arith in ground (arith, length-keep-le (is_valid later) ts)

length-keep : (p : ℕ → Bool) (ts : List ℕ) → length (keep p ts) ≡ tally p ts
length-keep p [] = refl
length-keep p (t ∷ ts) = ground (arith, length-keep p ts)

-- no request of the address is among the visits
abbrev pub avoids : String → List Visit → Bool
avoids ip [] = true
avoids ip (request j now ∷ more) = let rest = avoids ip more in not (str_eq j ip) && rest
avoids ip (tick now ∷ more) = avoids ip more

-- The limiter as it may become while the address is away: it keeps its limit, and no more requests
-- of the address than it held.
record IsAway (ip : String) (later : ℕ) (before after : RateLimiter) : Type 0 where
  limit_kept : after.max_requests_per_min ≡ before.max_requests_per_min
  is_map : IsMap after.limits
  fewer :
      tally (is_valid later) (remembered ip after) ≤ tally (is_valid later) (remembered ip before)

visit-IsAway :
    (ip : String) (later : ℕ) (before : RateLimiter) (v : Visit) (g : Guarded)
    → avoids ip (v ∷ []) ≡ true
    → IsAway ip later before g.limiter
    → IsAway ip later before (handle_visit v g).limiter
unfolding handle_visit cleanup_limits
visit-IsAway ip later before (request j now) g away h =
    let same = remembered-check_limit_ne j now g.limiter ip (ground arith) in
    record {
      limit_kept = max_requests-check_limit j now g.limiter ∙ h.limit_kept;
      is_map = check_limit-IsMap j now g.limiter h.is_map;
      fewer = rw same h.fewer;
    }
visit-IsAway ip later before (tick now) g away h =
    let kept = requests-cleanup_entries now ip g.limiter.limits h.is_map in
    record {
      limit_kept = h.limit_kept;
      is_map = cleanup_entries-IsMap now g.limiter.limits h.is_map;
      fewer = rw kept (
          omega (
            arith,
            h.fewer,
            tally-keep-le (is_valid later) (is_valid now) (remembered ip g.limiter),
          ));
    }

guard-IsAway :
    (ip : String) (later : ℕ) (before : RateLimiter) (visits : List Visit) (g : Guarded)
    → avoids ip visits ≡ true
    → IsAway ip later before g.limiter
    → IsAway ip later before (guard visits g).limiter
unfolding guard
guard-IsAway ip later before [] g away h = h
guard-IsAway ip later before (request j now ∷ more) g away h =
    guard-IsAway ip later before more (handle_visit (request j now) g) (ground arith)
      (visit-IsAway ip later before (request j now) g (ground arith) h)
guard-IsAway ip later before (tick now ∷ more) g away h =
    guard-IsAway ip later before more (handle_visit (tick now) g) away
      (visit-IsAway ip later before (tick now) g refl h)

-- After a refusal at `now`, the window of the address has room at each time after the wait.
refused_room :
    (ip : String) (now later : ℕ) (rl : RateLimiter)
    → 0 < rl.max_requests_per_min
    → length (remembered ip rl) ≤ rl.max_requests_per_min
    → tally (λ t. ltb now t) (remembered ip rl) ≡ 0
    → (check_limit ip now rl).1 ≡ false
    → now + 1000 * get_retry_after ip now (check_limit ip now rl).0 ≤ later
    → tally (is_valid later) (remembered ip (check_limit ip now rl).0) < rl.max_requests_per_min
refused_room ip now later rl pos bound past refused waited =
    elim (Bool-cases (leb rl.max_requests_per_min (length (valid_of ip now rl)))) [
      | inr room ↦ absurd (ground (arith, (check_limit_room ip now rl room).0))
      | inl full ↦
          let ts = remembered ip rl in
          let after = (check_limit ip now rl).0 in
          let seen = (check_limit_full ip now rl full).1 in
          let wait : get_retry_after ip now after ≡ retry_after_list (valid_of ip now rl) now =
            get_retry_after-remembered ip now after ∙ ap (λ l. retry_after_list l now) seen in
          let room =
            room_after_wait now later rl.max_requests_per_min (valid_of ip now rl) pos
              (omega (arith, bound, length-keep-le (is_valid now) ts)) (ground arith)
              (all-keep (is_valid now) ts)
              (omega (arith, past, tally-keep-le (λ t. ltb now t) (is_valid now) ts))
              (rw (← wait) waited) in
          rw seen (omega (arith, room, length-keep (is_valid later) (valid_of ip now rl)))
    ]

-- If the limit is positive, the map of the addresses holds each once, and the window of an address
-- holds no more requests than the limit and none from the future, then after a request of the
-- address that is refused at `now`, and any requests of other addresses and cleanups, a request of
-- the address is accepted at each time that is later than `now` by at least what `GetRetryAfter`
-- answered at `now`.
pub retry_after_suffices :
    (ip : String) (now later : ℕ) (rl : RateLimiter) (visits : List Visit)
    → 0 < rl.max_requests_per_min
    → IsMap rl.limits
    → length (remembered ip rl) ≤ rl.max_requests_per_min
    → tally (λ t. ltb now t) (remembered ip rl) ≡ 0
    → (check_limit ip now rl).1 ≡ false
    → avoids ip visits ≡ true
    → now + 1000 * get_retry_after ip now (check_limit ip now rl).0 ≤ later
    → let refused : Guarded = record { limiter = (check_limit ip now rl).0; accepted = [] } in
      (check_limit ip later (guard visits refused).limiter).1 ≡ true
retry_after_suffices ip now later rl visits pos map bound past refused away waited =
    let after = (check_limit ip now rl).0 in
    let g : Guarded = record { limiter = after; accepted = [] } in
    let start : IsAway ip later after g.limiter = record {
      limit_kept = refl;
      is_map = check_limit-IsMap ip now rl map;
      fewer = omega arith;
    } in
    let kept = guard-IsAway ip later after visits g away start in
    let last = (guard visits g).limiter in
    let room = refused_room ip now later rl pos bound past refused waited in
    let fits : length (valid_of ip later last) < last.max_requests_per_min = omega (
      arith,
      kept.fewer,
      room,
      kept.limit_kept,
      max_requests-check_limit ip now rl,
      length-keep (is_valid later) (remembered ip last),
    ) in
    (check_limit_room ip later last (ground (arith, fits))).0
