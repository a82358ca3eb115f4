-- ===== src/Base/Maps.antt =====
-- Go maps with text keys, as association lists. The loops over a map are modelled in the order
-- of its list; the theorems quantify over the list, so they hold for every iteration order.
use Prim.Native.Nat.{ℕ, suc, ◌+◌, ◌≤◌}
use Prim.Native.String.{String}
use mathlib.Core.Path.{◌≡◌, refl}
use mathlib.Core.Logic.{◌⊎◌}
use mathlib.Core.Bool.{true, false}
use mathlib.Core.List.{List, [], ◌∷◌}
use mathlib.Core.Option.{Option, none, some}
use native.Mathlib.Omega.{arith}
use text.Mathlib.Text.{◌==◌ as str_eq}
use text.Mathlib.TextEquality.{eq_iff}
use ranyaa.Base.Lists.{length}
use ranyaa.Base.Tests.{if◌then◌else◌}

abbrev pub Map {ℓ} : Type ℓ → Type ℓ
Map V = List (String × V)

module _ {ℓ} {V : Type ℓ} where
  -- v, ok := m[k]
  abbrev pub lookup : String → Map V → Option V
  lookup k [] = none
  lookup k ((j, v) ∷ m) = if str_eq j k then some v else lookup k m

  -- m[k] = v
  abbrev pub insert : String → V → Map V → Map V
  insert k v [] = (k, v) ∷ []
  insert k v ((j, w) ∷ m) = if str_eq j k then (k, v) ∷ m else (j, w) ∷ insert k v m

  -- delete(m, k)
  abbrev pub delete : String → Map V → Map V
  delete k [] = []
  delete k ((j, v) ∷ m) = let rest = delete k m in if str_eq j k then rest else (j, v) ∷ rest

  -- a sum over the values
  abbrev pub total : (V → ℕ) → Map V → ℕ
  total f [] = 0
  total f ((j, v) ∷ m) = f v + total f m

  abbrev pub old_part : (V → ℕ) → Option V → ℕ
  old_part f none = 0
  old_part f (some v) = f v

module _ {ℓ} {V : Type ℓ} where
  pub lookup-insert :
      (k j : String) (v : V) (m : Map V)
      → lookup j (insert k v m) ≡ (if str_eq k j then some v else lookup j m)
  lookup-insert k j v [] = refl
  lookup-insert k j v ((i, w) ∷ m) =
      ground (arith, eq_iff k j, eq_iff i k, eq_iff i j, lookup-insert k j v m)

  pub lookup-delete :
      (k j : String) (m : Map V) → lookup j (delete k m) ≡ (if str_eq k j then none else lookup j m)
  lookup-delete k j [] = ground arith
  lookup-delete k j ((i, w) ∷ m) =
      ground (arith, eq_iff k j, eq_iff i k, eq_iff i j, lookup-delete k j m)

  -- A write moves the sum by the new value and the one that it replaces.
  pub total-insert :
      (f : V → ℕ) (k : String) (v : V) (m : Map V)
      → total f (insert k v m) + old_part f (lookup k m) ≡ f v + total f m
  total-insert f k v [] = omega arith
  total-insert f k v ((i, w) ∷ m) = ground (arith, total-insert f k v m)

module _ {ℓ} {V : Type ℓ} where
  -- No key twice, as in every Go map.
  abbrev pub IsMap : Map V → Type ℓ
  IsMap [] = Unit
  IsMap ((k, v) ∷ m) = (lookup k m ≡ none) × IsMap m

module _ {ℓ} {V : Type ℓ} where
  pub insert-IsMap : (k : String) (v : V) (m : Map V) → IsMap m → IsMap (insert k v m)
  insert-IsMap k v [] h = (refl, tt)
  insert-IsMap k v ((i, w) ∷ m) h =
      ground (arith, insert-IsMap k v m, lookup-insert k i v m, eq_iff i k, eq_iff k i)

module _ {ℓ} {V : Type ℓ} where
  pub lookup-insert_same :
      (k j : String) (v w : V) (m : Map V)
      → str_eq k j ≡ true
      → lookup j (insert k v m) ≡ some w
      → v ≡ w
  lookup-insert_same k j v w m e found = ground (arith, lookup-insert k j v m)

  pub lookup-insert-none :
      (k j : String) (v : V) (m : Map V)
      → lookup j (insert k v m) ≡ none
      → (str_eq k j ≡ false) × (lookup j m ≡ none)
  lookup-insert-none k j v m e = ground (arith, lookup-insert k j v m)

  pub lookup-insert_ne :
      (k j : String) (v : V) (m : Map V) → str_eq k j ≡ false → lookup j (insert k v m) ≡ lookup j m
  lookup-insert_ne k j v m e = ground (arith, lookup-insert k j v m)

  pub lookup-insert_self : (k : String) (v : V) (m : Map V) → lookup k (insert k v m) ≡ some v
  lookup-insert_self k v m = ground (arith, lookup-insert k k v m, eq_iff k k)

  pub lookup-delete-none :
      (k j : String) (m : Map V) → lookup j m ≡ none → lookup j (delete k m) ≡ none
  lookup-delete-none k j m e = ground (arith, lookup-delete k j m)

  pub delete-IsMap : (k : String) (m : Map V) → IsMap m → IsMap (delete k m)
  delete-IsMap k [] h = tt
  delete-IsMap k ((i, w) ∷ m) h = ground (arith, delete-IsMap k m, lookup-delete-none k i m)

  pub lookup-tail :
      (k j : String) (v w : V) (m : Map V)
      → lookup k m ≡ none
      → lookup j m ≡ some w
      → (str_eq k j ≡ false) × (lookup j ((k, v) ∷ m) ≡ some w)
  lookup-tail k j v w m new found = ground (arith, new, found, eq_iff k j)

  pub length-delete-le : (k : String) (m : Map V) → length (delete k m) ≤ length m
  length-delete-le k [] = omega arith
  length-delete-le k ((j, w) ∷ m) = ground (arith, length-delete-le k m)

  pub length-insert_new :
      (k : String) (v : V) (m : Map V) → lookup k m ≡ none → length (insert k v m) ≡ suc (length m)
  length-insert_new k v [] e = refl
  length-insert_new k v ((j, w) ∷ m) e = ground (arith, e, length-insert_new k v m)

  -- what is found after a removal, and where
  pub lookup-delete-some :
      (k j : String) (v : V) (m : Map V)
      → lookup j (delete k m) ≡ some v
      → (str_eq k j ≡ false) × (lookup j m ≡ some v)
  lookup-delete-some k j v m e = ground (arith, e, lookup-delete k j m)

  pub lookup-delete_ne :
      (k j : String) (m : Map V) → str_eq k j ≡ false → lookup j (delete k m) ≡ lookup j m
  lookup-delete_ne k j m e = ground (arith, e, lookup-delete k j m)

  -- what is found after a write
  pub lookup-insert-some :
      (k j : String) (v w : V) (m : Map V)
      → lookup j (insert k v m) ≡ some w
      → ((k ≡ j) × (v ≡ w)) ⊎ ((str_eq k j ≡ false) × (lookup j m ≡ some w))
  lookup-insert-some k j v w m e = ground (arith, e, lookup-insert k j v m, eq_iff k j)

  pub total-delete_missing :
      (f : V → ℕ) (k : String) (m : Map V) → lookup k m ≡ none → total f (delete k m) ≡ total f m
  total-delete_missing f k [] e = refl
  total-delete_missing f k ((j, w) ∷ m) e = ground (arith, e, total-delete_missing f k m)

  -- A removal takes the value out of the sum.
  pub total-delete :
      (f : V → ℕ) (k : String) (v : V) (m : Map V)
      → IsMap m
      → lookup k m ≡ some v
      → total f m ≡ f v + total f (delete k m)
  total-delete f k v [] map e = ground (arith, e)
  total-delete f k v ((j, w) ∷ m) map e =
      ground
        (arith, e, map.0, map.1, eq_iff j k, total-delete f k v m map.1, total-delete_missing f k m)
