-- ===== src/RateLimit.antt =====
-- Sliding windows, as the two rate limiters of the program keep them: a list of the times of the
-- requests, from which those older than a minute are dropped at each look.
pub mod Client
pub mod PerIp
mod Examples
use ranyaa.Base.{
  ℕ, ◌+◌, ◌≤◌, ◌<◌, ◌≡◌, Bool, true, false, ◌&&◌, List, [], ◌∷◌, ◌++◌, arith, ltb, leb, bit, keep,
  tally, tally-append, tally-le-length, length, if◌then◌else◌,
}

-- `t` is less than a window before `now`
abbrev pub is_recent : ℕ → ℕ → ℕ → Bool
is_recent window now t = ltb now (t + window)

-- `t` lies in the window that ends with `end`
abbrev pub is_within : ℕ → ℕ → ℕ → Bool
is_within window end t = ltb end (t + window) && leb t end

module _ (window : ℕ) where
  pub tally-recent-le :
      (now later : ℕ) (ts : List ℕ)
      → now ≤ later
      → tally (is_recent window later) ts
        ≤ tally (is_recent window later) (keep (is_recent window now) ts)
  tally-recent-le now later [] le = omega arith
  tally-recent-le now later (t ∷ ts) le = ground (arith, tally-recent-le now later ts le)

  pub tally-within-le :
      (now end : ℕ) (ts : List ℕ)
      → now ≤ end
      → tally (is_within window end) ts ≤ tally (is_recent window now) ts
  tally-within-le now end [] le = omega arith
  tally-within-le now end (t ∷ ts) le = ground (arith, tally-within-le now end ts le)

-- What a limiter remembers, against the list of the requests that it has accepted: no accepted
-- request that may still count has been forgotten, and no window holds more than the limit.
pub record IsLimited (window maximum last : ℕ) (remembered accepted : List ℕ) : Type 0 where
  pub complete :
      (now : ℕ)
      → last ≤ now
      → tally (is_recent window now) accepted ≤ tally (is_recent window now) remembered
  pub bounded : (end : ℕ) → tally (is_within window end) accepted ≤ maximum

module _ (window maximum last now : ℕ) (remembered accepted : List ℕ) where
  -- A look at a later time may forget what is old.
  pub IsLimited-keep :
      last ≤ now
      → IsLimited window maximum last remembered accepted
      → IsLimited window maximum now (keep (is_recent window now) remembered) accepted
  IsLimited-keep le h = record {
    complete = λ later after.
        omega (arith, h.complete later, tally-recent-le window now later remembered after);
    bounded = h.bounded;
  }

  pub IsLimited-later :
      last ≤ now
      → IsLimited window maximum last remembered accepted
      → IsLimited window maximum now remembered accepted
  IsLimited-later le h = record {
    complete = λ later after. h.complete later (omega arith);
    bounded = h.bounded;
  }

  -- A request is recorded while fewer than the limit are remembered.
  pub IsLimited-record :
      length remembered < maximum
      → last ≤ now
      → IsLimited window maximum last remembered accepted
      → IsLimited window maximum now (remembered ++ now ∷ []) (now ∷ accepted)
  IsLimited-record room le h = record {
    complete = λ later after. omega (
      arith,
      h.complete later (omega arith),
      tally-append (is_recent window later) remembered (now ∷ []),
    );
    bounded = λ end. ground (
      arith,
      h.bounded end,
      tally-within-le window now end accepted,
      h.complete now,
      tally-le-length (is_recent window now) remembered,
      room,
    );
  }

-- A request is accepted if the look at its time finds fewer than the limit.
pub IsLimited-accept :
    (window maximum last now : ℕ) (remembered accepted : List ℕ)
    → length (keep (is_recent window now) remembered) < maximum
    → last ≤ now
    → IsLimited window maximum last remembered accepted
    → IsLimited window maximum now
        (keep (is_recent window now) remembered ++ now ∷ [])
        (now ∷ accepted)
IsLimited-accept window maximum last now remembered accepted room le h =
    IsLimited-record window maximum now now (keep (is_recent window now) remembered) accepted room
      (omega arith) (IsLimited-keep window maximum last now remembered accepted le h)
