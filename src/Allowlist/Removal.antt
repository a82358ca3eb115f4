-- ===== src/Allowlist/Removal.antt =====
-- What a removal leaves allowed, and a removal after an addition.
use ranyaa.Base.{
  String, ◌≡◌, refl, ap, ◌∙◌, Bool, true, false, not, ◌&&◌, Option, none, List, [], ◌∷◌, ◌++◌,
  arith, any, any-append, keep, str_eq, str_eq_self, Bool-cases, inl, inr,
}
use ranyaa.Allowlist.{
  AllowlistEntry, AllowlistManager, join, has_command, is_same, is_nil, add, remove, allows,
  is_allowed,
}

any-weaker :
    (p q : AllowlistEntry → Bool) (xs : List AllowlistEntry)
    → ((x : AllowlistEntry) → p x ≡ true → q x ≡ true)
    → any q xs ≡ false
    → any p xs ≡ false
any-weaker p q [] weaker e = refl
any-weaker p q (x ∷ xs) weaker e = ground (
  arith,
  weaker x,
  any-weaker p q xs weaker (ground (arith, e, Bool-cases (q x))),
  e,
  Bool-cases (p x),
  Bool-cases (q x),
)

keep-without :
    (p : AllowlistEntry → Bool) (xs : List AllowlistEntry) (entry : AllowlistEntry)
    → any p xs ≡ false
    → p entry ≡ true
    → keep (λ x. not (p x)) (xs ++ entry ∷ []) ≡ xs
keep-without p [] entry apart here = rw here refl
keep-without p (x ∷ xs) entry apart here = elim (Bool-cases (p x)) [
  | inl wrong ↦ ground (arith, apart, wrong)
  | inr other ↦
      rw other (ap (λ l. x ∷ l) (keep-without p xs entry (ground (arith, apart, other)) here))
]

module _ (glob : String → String → Option Bool) where
  -- If an entry has a command or a pattern, and no entry of the list has its command with its
  -- arguments (joined by spaces), then to add it succeeds, the command with the arguments is then
  -- allowed, and to remove them succeeds and gives the list from before.
  pub remove-add :
      (entry : AllowlistEntry) (am : AllowlistManager)
      → (str_eq entry.command "" && str_eq entry.pattern "") ≡ false
      → any (has_command entry.command entry.args) am.entries ≡ false
      → let (added, err) = add entry am in
        (err ≡ none)
        × (is_allowed glob entry.command entry.args added ≡ true)
        × (remove entry.command entry.args added ≡ (am, none))
  unfolding add remove is_allowed
  remove-add entry am given new =
      let same = has_command entry.command entry.args in
      let self : same entry ≡ true =
        ground (arith, str_eq_self entry.command, str_eq_self (join entry.args)) in
      let fresh : any (is_same entry) am.entries ≡ false =
        any-weaker (is_same entry) same am.entries (λ x e. ground (arith, e, Bool-cases (same x)))
          new in
      let found : any same (am.entries ++ entry ∷ []) ≡ true =
        ground (arith, any-append same am.entries (entry ∷ []), new, self) in
      let test = allows glob entry.command entry.args in
      let passes : test entry ≡ true = ground (
        arith,
        str_eq_self entry.command,
        str_eq_self (join entry.args),
        Bool-cases (is_nil entry.args),
      ) in
      rw (given, fresh, found)
        (
          refl,
          any-append test am.entries (entry ∷ [])
              ∙ ground (arith, passes, Bool-cases (any test am.entries)),
          ap (λ l. (record { entries = l }, none)) (keep-without same am.entries entry new self),
        )
