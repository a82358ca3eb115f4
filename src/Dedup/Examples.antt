-- ===== src/Dedup/Examples.antt =====
-- The cache at concrete times: an answer stored at 10 with a ttl of 5.
use ranyaa.Base.{ℕ, ◌≡◌, refl, some, none, arith, [], ◌∷◌}
use ranyaa.Dedup.{DedupCache, new_dedup_cache, get, set, cleanup, get-set, get-cleanup}

abbrev small : DedupCache ℕ
small = record { entries = []; ttl = 5 }

get-set_example : get "a" 15 (set "a" 7 10 small) ≡ some 7
get-set_example = get-set "a" "a" 7 10 15 small

get-set_late : get "a" 16 (set "a" 7 10 small) ≡ none
get-set_late = get-set "a" "a" 7 10 16 small

abbrev two_entries : DedupCache ℕ
two_entries = record {
  entries =
      ("a", record { result = 7; timestamp = 10 })
      ∷ ("b", record { result = 8; timestamp = 13 })
      ∷ [];
  ttl = 5;
}

get-cleanup_example : get "b" 17 (cleanup 16 two_entries) ≡ get "b" 17 two_entries
get-cleanup_example = get-cleanup "b" 16 17 two_entries (refl, (refl, tt)) (omega arith)

default_after_zero : (new_dedup_cache {A = ℕ} 0).ttl ≡ 300000000000
unfolding new_dedup_cache
default_after_zero = refl
