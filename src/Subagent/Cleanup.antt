-- ===== src/Subagent/Cleanup.antt =====
-- What a cleanup removes, and that it leaves the active runs and their counts alone.
use ranyaa.Base.{
  ℕ, zero, suc, ◌+◌, ◌-◌, String, ◌≡◌, refl, ap, ◌∙◌, inl, inr, Bool, true, false, ◌&&◌, Option,
  none, some, [], ◌∷◌, if◌then◌else◌, arith, ltb, Map, lookup, delete, length, total, total-delete,
  tally, bit, str_eq_self, eq_iff, IsMap, delete-IsMap, lookup-delete, lookup-delete_ne,
  lookup-tail, Bool-cases,
}
use ranyaa.Subagent.{
  RunStatus, pending, running, completed, failed, aborted, unlisted, is_terminal, is_active,
  RunRecord, Coordinator, values, get_run,
}
use ranyaa.Subagent.Queries.{
  is_old, cleanup_each, cleanup, is_active_run, count_active_runs, get_stats, retention_or_default,
}
use ranyaa.Subagent.Kept.{IsKept, active_runs-save_if}

abbrev times : ℕ → ℕ → ℕ
times zero c = 0
times (suc n) c = c + times n c

times_one : (n : ℕ) → times n 1 ≡ n
times_one zero = refl
times_one (suc n) = omega (arith, times_one n)

times_none : (n : ℕ) → times n 0 ≡ 0
times_none zero = refl
times_none (suc n) = omega (arith, times_none n)

terminal_is_inactive : (s : RunStatus) → is_terminal s ≡ true → is_active s ≡ false
terminal_is_inactive pending e = ground (arith, e)
terminal_is_inactive running e = ground (arith, e)
terminal_is_inactive completed e = refl
terminal_is_inactive failed e = refl
terminal_is_inactive aborted e = refl
terminal_is_inactive (unlisted t) e = refl

module _ {V : Type 0} where
  abbrev pub unless_old : ℕ → Option (RunRecord V) → Option (RunRecord V)
  unless_old cutoff none = none
  unless_old cutoff (some r) = if is_old cutoff r then none else some r

  abbrev left_of : ℕ → Option (RunRecord V) → Option (RunRecord V) → Option (RunRecord V)
  left_of cutoff none held = held
  left_of cutoff (some r) held = if is_old cutoff r then none else held

  left_of_itself :
      (cutoff : ℕ) (o : Option (RunRecord V)) → left_of cutoff o o ≡ unless_old cutoff o
  left_of_itself cutoff none = refl
  left_of_itself cutoff (some r) = refl

  lookup-cleanup_each :
      (cutoff : ℕ) (id : String) (part m : Map (RunRecord V))
      → IsMap part
      → lookup id (cleanup_each cutoff part m).0 ≡ left_of cutoff (lookup id part) (lookup id m)
  unfolding cleanup_each
  lookup-cleanup_each cutoff id [] m map = refl
  lookup-cleanup_each cutoff id ((k, r) ∷ more) m map = elim (Bool-cases (is_old cutoff r)) [
    | inr recent ↦
        rw (cleanup_each, recent)
          (ground (arith, recent, map.0, eq_iff k id, lookup-cleanup_each cutoff id more m map.1))
    | inl old ↦
        rw (cleanup_each, old)
          (ground (
            arith,
            old,
            map.0,
            eq_iff k id,
            lookup-delete k id m,
            lookup-cleanup_each cutoff id more (delete k m) map.1,
          ))
  ]

  total-cleanup_each :
      (f : RunRecord V → ℕ) (share cutoff : ℕ) (part m : Map (RunRecord V))
      → ((r : RunRecord V) → is_old cutoff r ≡ true → f r ≡ share)
      → IsMap part
      → IsMap m
      → ((id : String) (r : RunRecord V) → lookup id part ≡ some r → lookup id m ≡ some r)
      → let (left, removed) = cleanup_each cutoff part m in
        times removed share + total f left ≡ total f m
  unfolding cleanup_each
  total-cleanup_each f share cutoff [] m same map whole held = omega arith
  total-cleanup_each f share cutoff ((k, r) ∷ more) m same map whole held =
      let here = held k r (rw (str_eq_self k) refl) in
      elim (Bool-cases (is_old cutoff r)) [
        | inr recent ↦
            rw (cleanup_each, recent)
              (total-cleanup_each f share cutoff more m same map.1 whole
                (λ id s e. held id s (lookup-tail k id r s more map.0 e).1))
        | inl old ↦
            let rest =
              total-cleanup_each f share cutoff more (delete k m) same map.1
                (delete-IsMap k m whole)
                (λ id s e.
                  let (differ, there) = lookup-tail k id r s more map.0 e in
                  lookup-delete_ne k id m differ ∙ held id s there) in
            rw (cleanup_each, old)
              (omega (arith, rest, same r old, total-delete f k r m whole here))
      ]

  tally-values :
      (p : RunRecord V → Bool) (m : Map (RunRecord V))
      → tally p (values m) ≡ total (λ r. bit (p r)) m
  tally-values p [] = refl
  tally-values p ((k, r) ∷ m) = omega (arith, tally-values p m)

  length-total : (m : Map (RunRecord V)) → length m ≡ total (λ r. 1) m
  length-total [] = refl
  length-total ((k, r) ∷ m) = omega (arith, length-total m)

  tally-cleanup_each :
      (p : RunRecord V → Bool) (cutoff : ℕ) (m : Map (RunRecord V))
      → ((r : RunRecord V) → is_old cutoff r ≡ true → p r ≡ false)
      → IsMap m
      → tally p (values (cleanup_each cutoff m m).0) ≡ tally p (values m)
  tally-cleanup_each p cutoff m spared map =
      let (left, removed) = cleanup_each cutoff m m in
      let kept =
        total-cleanup_each (λ r. bit (p r)) 0 cutoff m m (λ r old. ap bit (spared r old)) map map
          (λ id r e. e) in
      omega (arith, kept, times_none removed, tally-values p m, tally-values p left)

  old_is_inactive :
      (cutoff : ℕ) (r : RunRecord V) → is_old cutoff r ≡ true → is_active r.status ≡ false
  old_is_inactive cutoff r old =
      terminal_is_inactive r.status (ground (arith, old, Bool-cases (is_terminal r.status)))

  -- In a coordinator whose map of runs is well kept, a cleanup removes a run just when it is
  -- completed, failed or aborted and its time of completion is before the cutoff, and leaves every
  -- other run as it is; it reports how many runs it has removed; and the number of active runs, of
  -- all and of each parent session, is the same after it.
  pub cleanup_exact :
      (retention now : ℕ) (writes : Bool) (c : Coordinator V)
      → IsKept c.active_runs
      → let (after, removed) = cleanup retention now writes c in
        let cutoff = now - retention_or_default retention in
        ((id : String) → get_run id after ≡ unless_old cutoff (get_run id c))
        × ((get_stats after).total_runs + removed ≡ (get_stats c).total_runs)
        × ((get_stats after).active ≡ (get_stats c).active)
        × ((key : String) → count_active_runs key after ≡ count_active_runs key c)
  unfolding cleanup
  cleanup_exact retention now writes c h =
      let m = c.active_runs in
      let cutoff = now - retention_or_default retention in
      let (left, removed) = cleanup_each cutoff m m in
      let counted =
        total-cleanup_each (λ r. 1) 1 cutoff m m (λ r old. refl) h.is_map h.is_map (λ id r e. e) in
      rw
        (active_runs-save_if (c.auto_save && ltb 0 removed) now writes
          (record c { active_runs = left }))
        (
          λ id. lookup-cleanup_each cutoff id m m h.is_map ∙ left_of_itself cutoff (lookup id m),
          omega (arith, counted, times_one removed, length-total m, length-total left),
          tally-cleanup_each (λ r. is_active r.status) cutoff m (old_is_inactive cutoff) h.is_map,
          λ key.
              tally-cleanup_each (is_active_run key) cutoff m
                (λ r old. ground (arith, old_is_inactive cutoff r old)) h.is_map,
        )
