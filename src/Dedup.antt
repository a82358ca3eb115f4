-- ===== src/Dedup.antt =====
-- pkg/commandqueue/dedup.go: answers kept by request id for a time. Times are nanoseconds on the
-- process's monotonic clock, so a stored time is never later than `now`. The cleanup goroutine is
-- the function `cleanup` at each tick; its context, ticker and channel are not modelled.
mod Examples
use ranyaa.Base.{
  ℕ, ◌+◌, ◌-◌, ◌*◌, ◌≤◌, ◌<◌, String, ◌≡◌, refl, Bool, true, false, Option, none, some, List, [],
  ◌∷◌, arith, ltb, leb, if◌then◌else◌, Map, lookup, insert, lookup-insert, IsMap, insert-IsMap,
  length, str_eq, str_eq_self, eq_iff, inl, inr, ap, Bool-cases,
}

pub record DedupEntry {ℓ} (A : Type ℓ) : Type ℓ where
  pub result : A
  pub timestamp : ℕ

pub record DedupCache {ℓ} (A : Type ℓ) : Type ℓ where
  pub entries : Map (DedupEntry A)
  pub ttl : ℕ

-- 5 * time.Minute
abbrev pub default_ttl : ℕ
default_ttl = 5 * 60 * 1000000000

-- a ttl of 0 or less is the default
unfoldable pub new_dedup_cache {ℓ} : {A : Type ℓ} → ℕ → DedupCache A
new_dedup_cache ttl = record { entries = []; ttl = if leb ttl 0 then default_ttl else ttl }

-- now.Sub(entry.timestamp) > dc.ttl
abbrev pub is_stale : ℕ → ℕ → ℕ → Bool
is_stale now ttl timestamp = ltb ttl (now - timestamp)

module _ {ℓ} {A : Type ℓ} where
  get_entry : ℕ → ℕ → Option (DedupEntry A) → Option A
  get_entry now ttl none = none
  get_entry now ttl (some entry) =
      if is_stale now ttl entry.timestamp then none else some entry.result

  -- (*dedupCache).Get
  unfoldable pub get : String → ℕ → DedupCache A → Option A
  unfolding get_entry
  get request_id now dc = get_entry now dc.ttl (lookup request_id dc.entries)

  -- (*dedupCache).Set
  unfoldable pub set : String → A → ℕ → DedupCache A → DedupCache A
  set request_id result now dc = record dc {
    entries = insert request_id (record { result = result; timestamp = now }) dc.entries;
  }

  sweep : ℕ → ℕ → Map (DedupEntry A) → Map (DedupEntry A)
  sweep now ttl [] = []
  sweep now ttl ((k, e) ∷ m) =
      let rest = sweep now ttl m in if is_stale now ttl e.timestamp then rest else (k, e) ∷ rest

  -- one tick of (*dedupCache).cleanup
  unfoldable pub cleanup : ℕ → DedupCache A → DedupCache A
  unfolding sweep
  cleanup now dc = record dc { entries = sweep now dc.ttl dc.entries }

  -- (*dedupCache).Size
  pub size : DedupCache A → ℕ
  size dc = length dc.entries

  -- (*dedupCache).Clear
  pub clear : DedupCache A → DedupCache A
  clear dc = record dc { entries = [] }

  -- A stored result is found again under its own id until the ttl has passed, and not later; the
  -- answers under other ids are as they were.
  pub get-set :
      (j k : String) (r : A) (stored now : ℕ) (dc : DedupCache A)
      → get j now (set k r stored dc) ≡ (
          if str_eq k j then (if leb now (stored + dc.ttl) then some r else none) else get j now dc)
  unfolding get set
  get-set j k r stored now dc =
      ground (arith, lookup-insert k j (record { result = r; timestamp = stored }) dc.entries)

  lookup-sweep :
      (j : String) (t ttl : ℕ) (m : Map (DedupEntry A))
      → lookup j m ≡ none
      → lookup j (sweep t ttl m) ≡ none
  unfolding sweep
  lookup-sweep j t ttl [] h = refl
  lookup-sweep j t ttl ((k, e) ∷ m) h = ground (arith, lookup-sweep j t ttl m)

  get-sweep :
      (j : String) (t now ttl : ℕ) (m : Map (DedupEntry A))
      → IsMap m
      → t ≤ now
      → get_entry now ttl (lookup j (sweep t ttl m)) ≡ get_entry now ttl (lookup j m)
  unfolding sweep get_entry
  get-sweep j t now ttl [] h le = refl
  get-sweep j t now ttl ((k, e) ∷ m) h le =
      ground (arith, get-sweep j t now ttl m, lookup-sweep j t ttl m, eq_iff k j)

  -- In a cache that holds each id once, a cleanup at a time t changes no answer at t or later.
  pub get-cleanup :
      (j : String) (t now : ℕ) (dc : DedupCache A)
      → IsMap dc.entries
      → t ≤ now
      → get j now (cleanup t dc) ≡ get j now dc
  unfolding get cleanup
  get-cleanup j t now dc h le = get-sweep j t now dc.ttl dc.entries h le

  kept-sweep :
      (j : String) (t ttl : ℕ) (entry : DedupEntry A) (m : Map (DedupEntry A))
      → lookup j m ≡ some entry
      → is_stale t ttl entry.timestamp ≡ false
      → lookup j (sweep t ttl m) ≡ some entry
  unfolding sweep
  kept-sweep j t ttl entry [] h live = cc
  kept-sweep j t ttl entry ((k, e) ∷ m) h live = elim (Bool-cases (str_eq k j)) [
    | inl same ↦
        let found : e ≡ entry = ground (arith, h, same) in
        let stays : is_stale t ttl e.timestamp ≡ false = rw found live in
        rw (stays, same) (ap some found)
    | inr other ↦ ground (arith, kept-sweep j t ttl entry m, other, h)
  ]

  -- A cleanup keeps an entry whose ttl has not passed.
  pub lookup-cleanup :
      (j : String) (t : ℕ) (entry : DedupEntry A) (dc : DedupCache A)
      → lookup j dc.entries ≡ some entry
      → t ≤ entry.timestamp + dc.ttl
      → lookup j (cleanup t dc).entries ≡ some entry
  unfolding cleanup
  lookup-cleanup j t entry dc h le = kept-sweep j t dc.ttl entry dc.entries h (ground arith)
