-- ===== src/Base/Members.antt =====
-- Boolean membership of texts against the library's membership.
use mathlib.Core.List.{Mem, not-mem-nil, mem-cons, mem-cons_of_mem}
use mathlib.Core.Logic.Or
use mathlib.Core.Bool.{Bool-set}
use ranyaa.Base.{
  String, ◌≡◌, sym, inl, inr, true, List, [], ◌∷◌, arith, eq_iff, str_eq, Bool-cases, has,
  str_eq_self,
}

pub has-Mem : (t : String) (xs : List String) → has t xs ≡ true → Mem t xs
has-Mem t [] h = cc
has-Mem t (x ∷ xs) h = elim (Bool-cases (str_eq x t)) [
  | inl e ↦ mem-cons.1 (Or.inl (sym ((eq_iff x t).0 e)))
  | inr e ↦ mem-cons_of_mem x (has-Mem t xs (ground arith))
]

pub Mem-has : (t : String) (xs : List String) → Mem t xs → has t xs ≡ true
Mem-has t [] m = absurd (not-mem-nil m)
Mem-has t (x ∷ xs) m =
    Or.elim (Bool-set _ _) (mem-cons.0 m) (λ e. rw (e, str_eq_self x))
      (λ r. ground (arith, Mem-has t xs r))
