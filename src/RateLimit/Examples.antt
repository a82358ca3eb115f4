-- ===== src/RateLimit/Examples.antt =====
-- The limiters on concrete traffic: a client with a limit of one message a minute, and an address
-- with a limit of two.
use ranyaa.Base.{ℕ, ◌≡◌, ◌≤◌, refl, arith, true, false, List, [], ◌∷◌, tally}
use ranyaa.RateLimit.{is_within}
use ranyaa.RateLimit.Client.{Traffic, message, started, ended, serve, serve_limits, minute}
use ranyaa.RateLimit.Client
use ranyaa.RateLimit.PerIp
use ranyaa.RateLimit.PerIp.{
  Visit, request, tick, Guarded, guard, check_limit, get_retry_after, new_rate_limiter, RateLimiter,
  times_of,
}
use ranyaa.RateLimit.PerIp.Windows.{guard_limits}
use ranyaa.RateLimit.PerIp.Retry.{retry_after_suffices}

-- The second message comes in the same minute, the third one a minute later, while the request of the
-- first one still runs.
abbrev messages : List Traffic
messages =
    message 4
    ∷ started 5
    ∷ message 6
    ∷ message 60000000004
    ∷ message 60000000005
    ∷ started 60000000006
    ∷ []

serve_limits_example :
    let s = serve messages (Client.fresh 1 2) in
    ((end : ℕ) → tally (is_within minute end) s.accepted ≤ 1) × (s.in_flight ≤ 2)
serve_limits_example =
    serve_limits 1 2 messages
      (omega arith, (omega arith, (omega arith, (omega arith, (omega arith, (omega arith, tt))))))

two_accepted :
    let s = serve messages (Client.fresh 1 2) in
    (s.accepted ≡ 60000000006 ∷ 5 ∷ []) × (s.in_flight ≡ 2)
unfolding serve Client.handle_traffic Client.check_message Client.start_request Client.end_request
    Client.check_request_allowed Client.record_request_start Client.record_request_end
    Client.new_with_limits Client.clean_up
two_accepted = (refl, refl)

-- With a limit of one at a time a message is refused until the first request has ended.
one_at_a_time :
    let s = serve (message 0 ∷ started 1 ∷ message 2 ∷ started 3 ∷ []) (Client.fresh 9 1) in
    let after = serve (ended ∷ message 5 ∷ started 6 ∷ []) s in
    (s.accepted ≡ 1 ∷ []) × (after.accepted ≡ 6 ∷ 1 ∷ []) × (after.in_flight ≡ 1)
unfolding serve Client.handle_traffic Client.check_message Client.start_request Client.end_request
    Client.check_request_allowed Client.record_request_start Client.record_request_end
    Client.new_with_limits Client.clean_up
one_at_a_time = (refl, refl, refl)

abbrev visits : List Visit
visits =
    request "a" 5
    ∷ request "b" 5
    ∷ request "a" 6
    ∷ request "a" 7
    ∷ tick 60005
    ∷ request "a" 60006
    ∷ []

guard_limits_example :
    tally (is_within 60000 60006) (times_of "a" (guard visits (PerIp.Windows.fresh 2)).accepted) ≤ 2
guard_limits_example =
    guard_limits 2 visits "a"
      (omega arith, (omega arith, (omega arith, (omega arith, (omega arith, (omega arith, tt))))))
      60006

-- An address that has used up its two requests.
abbrev used_up : RateLimiter
used_up = record {
  limits = ("a", record { requests = 5 ∷ 6 ∷ []; window_start = 5 }) ∷ [];
  max_requests_per_min = 2;
}

wait_of_a_minute : get_retry_after "a" 10 (check_limit "a" 10 used_up).0 ≡ 60
unfolding get_retry_after check_limit PerIp.check_state PerIp.retry_after_state
    PerIp.retry_after_list
wait_of_a_minute = refl

first_refused : (check_limit "a" 10 used_up).1 ≡ false
unfolding check_limit PerIp.check_state
first_refused = refl

-- another address makes a request, and a cleanup runs
abbrev meanwhile : List Visit
meanwhile = request "b" 20 ∷ tick 30000 ∷ []

retry_after_suffices_example :
    let refused : Guarded = record { limiter = (check_limit "a" 10 used_up).0; accepted = [] } in
    (check_limit "a" 60010 (guard meanwhile refused).limiter).1 ≡ true
retry_after_suffices_example =
    retry_after_suffices "a" 10 60010 used_up meanwhile (omega arith) (refl, tt) (omega arith) refl
      first_refused refl (rw wait_of_a_minute omega arith)
