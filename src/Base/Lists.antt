-- ===== src/Base/Lists.antt =====
-- Lists measured by native numbers, Boolean filters, counting and the removal of one item.
use Prim.Native.Nat.{ℕ, suc, ◌+◌, ◌≤◌, ◌<◌}
use Prim.Native.String.{String}
use mathlib.Core.Path.{◌≡◌, refl}
use mathlib.Core.Bool.{Bool, true, false, ◌&&◌, ◌||◌}
use mathlib.Core.List.{List, [], ◌∷◌, ◌++◌}
use mathlib.Core.Logic.{inl, inr}
use mathlib.Core.Option.{Option, none, some}
use native.Mathlib.Omega.{arith}
use text.Mathlib.Text.{◌==◌ as str_eq}
use text.Mathlib.TextEquality.{eq_iff}
use ranyaa.Base.Tests.{bit, if◌then◌else◌, Option-cases}

module _ {ℓ} {A : Type ℓ} where
  abbrev pub length : List A → ℕ
  length [] = 0
  length (x ∷ xs) = suc (length xs)

  pub length-append : (xs ys : List A) → length (xs ++ ys) ≡ length xs + length ys
  length-append [] ys = omega arith
  length-append (x ∷ xs) ys = omega (arith, length-append xs ys)

  -- the items that pass a test, in order
  abbrev pub keep : (A → Bool) → List A → List A
  keep p [] = []
  keep p (x ∷ xs) = let rest = keep p xs in if p x then x ∷ rest else rest

  -- how many items pass a test
  abbrev pub tally : (A → Bool) → List A → ℕ
  tally p [] = 0
  tally p (x ∷ xs) = bit (p x) + tally p xs

  abbrev pub any : (A → Bool) → List A → Bool
  any p [] = false
  any p (x ∷ xs) = p x || any p xs

  abbrev pub all : (A → Bool) → List A → Bool
  all p [] = true
  all p (x ∷ xs) = p x && all p xs

  -- the first item that passes a test, and the list without it
  abbrev extract_else : A → Option (A × List A) → Option (A × List A)
  extract_else x none = none
  extract_else x (some (y, rest)) = some (y, x ∷ rest)

  abbrev pub extract : (A → Bool) → List A → Option (A × List A)
  extract p [] = none
  extract p (x ∷ xs) =
      let rest = extract_else x (extract p xs) in if p x then some (x, xs) else rest

module _ {ℓ} {A : Type ℓ} where
  pub length-keep-le : (p : A → Bool) (xs : List A) → length (keep p xs) ≤ length xs
  length-keep-le p [] = omega arith
  length-keep-le p (x ∷ xs) = ground (arith, length-keep-le p xs)

  pub tally-append : (p : A → Bool) (xs ys : List A) → tally p (xs ++ ys) ≡ tally p xs + tally p ys
  tally-append p [] ys = omega arith
  tally-append p (x ∷ xs) ys = omega (arith, tally-append p xs ys)

  pub tally-le-length : (p : A → Bool) (xs : List A) → tally p xs ≤ length xs
  tally-le-length p [] = omega arith
  tally-le-length p (x ∷ xs) = ground (arith, tally-le-length p xs)

  pub any-append : (p : A → Bool) (xs ys : List A) → any p (xs ++ ys) ≡ (any p xs || any p ys)
  any-append p [] ys = refl
  any-append p (x ∷ xs) ys = ground (arith, any-append p xs ys)

  -- What `extract` takes out passes the test, and every count goes down by that item.
  pub extract-tally :
      (p q : A → Bool) (xs : List A) (y : A) (rest : List A)
      → extract p xs ≡ some (y, rest)
      → tally q xs ≡ bit (q y) + tally q rest
  extract-tally p q [] y rest h = ground arith
  extract-tally p q (x ∷ xs) y rest h = elim (Option-cases (extract p xs)) [
    | inl e ↦ ground arith
    | inr ((z, r), e) ↦ ground (arith, extract-tally p q xs z r e)
  ]

  pub extract-length :
      (p : A → Bool) (xs : List A) (y : A) (rest : List A)
      → extract p xs ≡ some (y, rest)
      → length xs ≡ suc (length rest)
  extract-length p [] y rest h = ground arith
  extract-length p (x ∷ xs) y rest h = elim (Option-cases (extract p xs)) [
    | inl e ↦ ground arith
    | inr ((z, r), e) ↦ ground (arith, extract-length p xs z r e)
  ]

  -- What `extract` takes out passes the test.
  pub extract-passes :
      (p : A → Bool) (xs : List A) (y : A) (rest : List A)
      → extract p xs ≡ some (y, rest)
      → p y ≡ true
  extract-passes p [] y rest h = ground arith
  extract-passes p (x ∷ xs) y rest h = elim (Option-cases (extract p xs)) [
    | inl e ↦ ground arith
    | inr ((z, r), e) ↦ ground (arith, extract-passes p xs z r e)
  ]

-- membership of a text in a list of texts
abbrev pub has : String → List String → Bool
has t = any (λ x. str_eq x t)

-- A test that passes less often counts no more, and less if it fails at a member.
pub tally-le {ℓ} :
    {A : Type ℓ} (p q : A → Bool) (xs : List A)
    → ((x : A) → p x ≡ true → q x ≡ true)
    → tally p xs ≤ tally q xs
tally-le p q [] h = omega arith
tally-le p q (x ∷ xs) h = ground (arith, h x, tally-le p q xs h)

pub tally-lt :
    (p q : String → Bool) (id : String) (xs : List String)
    → ((x : String) → p x ≡ true → q x ≡ true)
    → has id xs ≡ true
    → p id ≡ false
    → q id ≡ true
    → tally p xs < tally q xs
tally-lt p q id [] h m out into = ground (arith, m)
tally-lt p q id (x ∷ xs) h m out into =
    ground (arith, h x, tally-le p q xs h, tally-lt p q id xs h, eq_iff x id, m, out, into)
