-- ===== src/RateLimit/PerIp/Windows.antt =====
-- The windows of the addresses: their limits, and the time after which a refused request passes.
use mathlib.Core.Path.{fun_ext}
use ranyaa.Base.{
  ℕ, ◌≤◌, ◌<◌, ◌≡◌, refl, ap, ◌∙◌, inl, inr, String, Bool, true, false, Option, none, some, List,
  [], ◌∷◌, ◌++◌, arith, ltb, leb, tally, tally-append, keep, length, length-append, length-keep-le,
  Bool-cases, Map, lookup, IsMap, insert-IsMap, lookup-insert_self, lookup-insert_ne, str_eq,
  str_eq_self, eq_iff,
}
use ranyaa.RateLimit.{
  is_recent, is_within, IsLimited, IsLimited-keep, IsLimited-later, IsLimited-accept,
}
use ranyaa.RateLimit.PerIp.{
  RateLimitState, RateLimiter, new_rate_limiter, is_valid, state_or_new, check_state, check_limit,
  cleanup_entries, is_nil_list, cleanup_limits, remembered, Visit, request, tick, Guarded,
  handle_visit, guard, InOrder, times_of,
}

is_valid-recent : (now : ℕ) → is_valid now ≡ is_recent 60000 now
is_valid-recent now = fun_ext (λ t. ground arith)

module _ (now : ℕ) where
  lookup-cleanup_entries :
      (ip : String) (m : Map RateLimitState)
      → lookup ip m ≡ none
      → lookup ip (cleanup_entries now m) ≡ none
  unfolding cleanup_entries
  lookup-cleanup_entries ip [] h = refl
  lookup-cleanup_entries ip ((j, state) ∷ m) h = ground (arith, lookup-cleanup_entries ip m)

  pub cleanup_entries-IsMap : (m : Map RateLimitState) → IsMap m → IsMap (cleanup_entries now m)
  unfolding cleanup_entries
  cleanup_entries-IsMap [] h = tt
  cleanup_entries-IsMap ((j, state) ∷ m) h =
      ground (arith, cleanup_entries-IsMap m, lookup-cleanup_entries j m)

  pub requests-cleanup_entries :
      (ip : String) (m : Map RateLimitState)
      → IsMap m
      → (state_or_new 0 (lookup ip (cleanup_entries now m))).requests
        ≡ keep (is_valid now) (state_or_new 0 (lookup ip m)).requests
  unfolding cleanup_entries is_nil_list
  requests-cleanup_entries ip [] h = refl
  requests-cleanup_entries ip ((j, state) ∷ m) h = ground (
    arith,
    requests-cleanup_entries ip m,
    lookup-cleanup_entries ip m,
    lookup-cleanup_entries j m,
    eq_iff j ip,
  )

requests-state_or_new :
    (now : ℕ) (o : Option RateLimitState)
    → (state_or_new now o).requests ≡ (state_or_new 0 o).requests
requests-state_or_new now none = refl
requests-state_or_new now (some state) = refl

abbrev pub valid_of : String → ℕ → RateLimiter → List ℕ
valid_of ip now rl = keep (is_valid now) (remembered ip rl)

check_state_full :
    (now maximum : ℕ) (o : Option RateLimitState)
    → leb maximum (length (keep (is_valid now) (state_or_new 0 o).requests)) ≡ true
    → ((check_state now maximum (state_or_new now o)).1 ≡ false)
      × ((check_state now maximum (state_or_new now o)).0.requests
          ≡ keep (is_valid now) (state_or_new 0 o).requests)
unfolding check_state
check_state_full now maximum none full = rw full (refl, refl)
check_state_full now maximum (some state) full = rw full (refl, refl)

check_state_room :
    (now maximum : ℕ) (o : Option RateLimitState)
    → leb maximum (length (keep (is_valid now) (state_or_new 0 o).requests)) ≡ false
    → ((check_state now maximum (state_or_new now o)).1 ≡ true)
      × ((check_state now maximum (state_or_new now o)).0.requests
          ≡ keep (is_valid now) (state_or_new 0 o).requests ++ now ∷ [])
unfolding check_state
check_state_room now maximum none room = rw room (refl, refl)
check_state_room now maximum (some state) room = rw room (refl, refl)

module _ (ip : String) (now : ℕ) (rl : RateLimiter) where
  abbrev updated : RateLimitState
  updated = (check_state now rl.max_requests_per_min (state_or_new now (lookup ip rl.limits))).0

  remembered_updated : remembered ip (check_limit ip now rl).0 ≡ updated.requests
  unfolding check_limit
  remembered_updated =
      ap (λ o. (state_or_new 0 o).requests) (lookup-insert_self ip updated rl.limits)

  pub check_limit_full :
      leb rl.max_requests_per_min (length (valid_of ip now rl)) ≡ true
      → ((check_limit ip now rl).1 ≡ false)
        × (remembered ip (check_limit ip now rl).0 ≡ valid_of ip now rl)
  unfolding check_limit
  check_limit_full full =
      let (no_room, same) =
        check_state_full now rl.max_requests_per_min (lookup ip rl.limits) full in
      (no_room, remembered_updated ∙ same)

  pub check_limit_room :
      leb rl.max_requests_per_min (length (valid_of ip now rl)) ≡ false
      → ((check_limit ip now rl).1 ≡ true)
        × (remembered ip (check_limit ip now rl).0 ≡ valid_of ip now rl ++ now ∷ [])
  unfolding check_limit
  check_limit_room room =
      let (yes_room, more) =
        check_state_room now rl.max_requests_per_min (lookup ip rl.limits) room in
      (yes_room, remembered_updated ∙ more)

  pub remembered-check_limit_ne :
      (j : String) → str_eq ip j ≡ false → remembered j (check_limit ip now rl).0 ≡ remembered j rl
  unfolding check_limit
  remembered-check_limit_ne j other =
      ap (λ o. (state_or_new 0 o).requests) (lookup-insert_ne ip j updated rl.limits other)

  pub check_limit-IsMap : IsMap rl.limits → IsMap (check_limit ip now rl).0.limits
  unfolding check_limit
  check_limit-IsMap h = insert-IsMap ip updated rl.limits h

-- What the limiter knows of one address, after visits up to the time `last`.
record IsGuarded (ip : String) (maximum last : ℕ) (g : Guarded) : Type 0 where
  limit_kept : g.limiter.max_requests_per_min ≡ maximum
  is_map : IsMap g.limiter.limits
  bound : length (remembered ip g.limiter) ≤ maximum
  past : tally (λ t. ltb last t) (remembered ip g.limiter) ≡ 0
  limited : IsLimited 60000 maximum last (remembered ip g.limiter) (times_of ip g.accepted)

pub tally-keep-le : (p q : ℕ → Bool) (ts : List ℕ) → tally p (keep q ts) ≤ tally p ts
tally-keep-le p q [] = omega arith
tally-keep-le p q (t ∷ ts) = ground (arith, tally-keep-le p q ts)

tally-later-le :
    (last now : ℕ) (ts : List ℕ)
    → last ≤ now
    → tally (λ t. ltb now t) ts ≤ tally (λ t. ltb last t) ts
tally-later-le last now [] le = omega arith
tally-later-le last now (t ∷ ts) le = ground (arith, tally-later-le last now ts le)

module _ (ip : String) (maximum last : ℕ) (g : Guarded) (h : IsGuarded ip maximum last g) where
  looked-IsGuarded :
      (now : ℕ) (t : Guarded)
      → last ≤ now
      → t.limiter.max_requests_per_min ≡ maximum
      → IsMap t.limiter.limits
      → remembered ip t.limiter ≡ valid_of ip now g.limiter
      → times_of ip t.accepted ≡ times_of ip g.accepted
      → IsGuarded ip maximum now t
  looked-IsGuarded now t le limit map seen same =
      let ts = remembered ip g.limiter in
      record {
        limit_kept = limit;
        is_map = map;
        bound = rw seen (omega (arith, h.bound, length-keep-le (is_valid now) ts));
        past = rw seen (
            omega (
              arith,
              h.past,
              tally-keep-le (λ t. ltb now t) (is_valid now) ts,
              tally-later-le last now ts le,
            ));
        limited =
            rw (seen, same, is_valid-recent now)
              (IsLimited-keep 60000 maximum last now ts (times_of ip g.accepted) le h.limited);
      }

  accepted-IsGuarded :
      (now : ℕ) (t : Guarded)
      → last ≤ now
      → t.limiter.max_requests_per_min ≡ maximum
      → IsMap t.limiter.limits
      → leb maximum (length (valid_of ip now g.limiter)) ≡ false
      → remembered ip t.limiter ≡ valid_of ip now g.limiter ++ now ∷ []
      → times_of ip t.accepted ≡ now ∷ times_of ip g.accepted
      → IsGuarded ip maximum now t
  accepted-IsGuarded now t le limit map room seen more =
      let ts = remembered ip g.limiter in
      let valid = valid_of ip now g.limiter in
      let fits : length valid < maximum = ground arith in
      record {
        limit_kept = limit;
        is_map = map;
        bound = rw seen (omega (arith, fits, length-append valid (now ∷ [])));
        past = rw seen (
            ground (
              arith,
              h.past,
              tally-append (λ t. ltb now t) valid (now ∷ []),
              tally-keep-le (λ t. ltb now t) (is_valid now) ts,
              tally-later-le last now ts le,
            ));
        limited =
            rw (seen, more, is_valid-recent now)
              (IsLimited-accept 60000 maximum last now ts (times_of ip g.accepted)
                (rw (← is_valid-recent now) fits) le h.limited);
      }

  other-IsGuarded :
      (now : ℕ) (t : Guarded)
      → last ≤ now
      → t.limiter.max_requests_per_min ≡ maximum
      → IsMap t.limiter.limits
      → remembered ip t.limiter ≡ remembered ip g.limiter
      → times_of ip t.accepted ≡ times_of ip g.accepted
      → IsGuarded ip maximum now t
  other-IsGuarded now t le limit map seen same = record {
    limit_kept = limit;
    is_map = map;
    bound = rw seen h.bound;
    past = rw seen (omega (arith, h.past, tally-later-le last now (remembered ip g.limiter) le));
    limited =
        rw (seen, same)
          (IsLimited-later 60000 maximum last now (remembered ip g.limiter) (times_of ip g.accepted)
            le h.limited);
  }

  check_limit-limit :
      (j : String) (now : ℕ) → (check_limit j now g.limiter).0.max_requests_per_min ≡ maximum
  unfolding check_limit
  check_limit-limit j now = h.limit_kept

  own_request-IsGuarded :
      (now : ℕ) → last ≤ now → IsGuarded ip maximum now (handle_visit (request ip now) g)
  unfolding handle_visit
  own_request-IsGuarded now le =
      elim (Bool-cases (leb g.limiter.max_requests_per_min (length (valid_of ip now g.limiter)))) [
        | inl full ↦
            let (refused, seen) = check_limit_full ip now g.limiter full in
            looked-IsGuarded now _ le (check_limit-limit ip now)
              (check_limit-IsMap ip now g.limiter h.is_map) seen (rw refused refl)
        | inr room ↦
            let (allowed, seen) = check_limit_room ip now g.limiter room in
            accepted-IsGuarded now _ le (check_limit-limit ip now)
              (check_limit-IsMap ip now g.limiter h.is_map) (rw (← h.limit_kept) room) seen
              (rw (allowed, str_eq_self ip) refl)
      ]

  other_request-IsGuarded :
      (j : String) (now : ℕ)
      → str_eq j ip ≡ false
      → last ≤ now
      → IsGuarded ip maximum now (handle_visit (request j now) g)
  unfolding handle_visit
  other_request-IsGuarded j now other le =
      other-IsGuarded now _ le (check_limit-limit j now)
        (check_limit-IsMap j now g.limiter h.is_map)
        (remembered-check_limit_ne j now g.limiter ip other)
        (elim (Bool-cases (check_limit j now g.limiter).1) [
          | inl e ↦ rw (e, other) refl
          | inr e ↦ rw e refl
        ])

  tick-IsGuarded : (now : ℕ) → last ≤ now → IsGuarded ip maximum now (handle_visit (tick now) g)
  unfolding handle_visit cleanup_limits
  tick-IsGuarded now le =
      looked-IsGuarded now _ le h.limit_kept (cleanup_entries-IsMap now g.limiter.limits h.is_map)
        (requests-cleanup_entries now ip g.limiter.limits h.is_map) refl

guard-IsGuarded :
    (ip : String) (maximum : ℕ) (visits : List Visit) (last : ℕ) (g : Guarded)
    → InOrder last visits
    → IsGuarded ip maximum last g
    → (end : ℕ) × IsGuarded ip maximum end (guard visits g)
unfolding guard
guard-IsGuarded ip maximum [] last g order h = (last, h)
guard-IsGuarded ip maximum (tick now ∷ more) last g order h =
    guard-IsGuarded ip maximum more now (handle_visit (tick now) g) order.1
      (tick-IsGuarded ip maximum last g h now order.0)
guard-IsGuarded ip maximum (request j now ∷ more) last g order h =
    guard-IsGuarded ip maximum more now (handle_visit (request j now) g) order.1
      (elim (Bool-cases (str_eq j ip)) [
        | inl e ↦ rw ((eq_iff j ip).0 e) (own_request-IsGuarded ip maximum last g h now order.0)
        | inr e ↦ other_request-IsGuarded ip maximum last g h j now e order.0
      ])

abbrev pub fresh : ℕ → Guarded
fresh maximum = record { limiter = new_rate_limiter maximum; accepted = [] }

fresh-IsGuarded : (ip : String) (maximum : ℕ) → IsGuarded ip maximum 0 (fresh maximum)
unfolding new_rate_limiter
fresh-IsGuarded ip maximum = record {
  limit_kept = refl;
  is_map = tt;
  bound = omega arith;
  past = refl;
  limited = record { complete = λ now le. omega arith; bounded = λ w. omega arith };
}

-- Whatever the requests of all addresses and the cleanups between them, if the clock does not go
-- back, no window of a minute holds more accepted requests of one address than the limit.
pub guard_limits :
    (maximum : ℕ) (visits : List Visit) (ip : String)
    → InOrder 0 visits
    → (end : ℕ)
    → tally (is_within 60000 end) (times_of ip (guard visits (fresh maximum)).accepted) ≤ maximum
guard_limits maximum visits ip order =
    (guard-IsGuarded ip maximum visits 0 (fresh maximum) order
      (fresh-IsGuarded ip maximum)).1.limited.bounded
