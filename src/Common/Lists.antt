-- ===== src/Common/Lists.antt =====
-- Lists measured by native numbers, and lists of names counted by name.
use Prim.Native.Nat.{ℕ, suc, ◌+◌, ◌<◌, ◌≤◌}
use Prim.Native.String.{String}
use mathlib.Core.Path.{◌≡◌, refl}
use mathlib.Core.Bool.{Bool, true, false, not, ◌||◌, ◌&&◌}
use mathlib.Core.List.{List, [], ◌∷◌, ◌++◌}
use native.Mathlib.Omega.{arith}
use text.Mathlib.Text.{◌==◌ as str_eq}
use text.Mathlib.TextEquality.{eq_iff}
use dev_ops_deployment_tool.Common.Tests.{if◌then◌else◌}

module _ {ℓ} {A : Type ℓ} where
  abbrev pub length : List A → ℕ
  length [] = 0
  length (x ∷ xs) = suc (length xs)

  pub length-append : (xs ys : List A) → length (xs ++ ys) ≡ length xs + length ys
  length-append [] ys = omega arith
  length-append (x ∷ xs) ys = omega (arith, length-append xs ys)

  -- A predicate on every item.
  abbrev pub All {κ} : (A → Type κ) → List A → Type κ
  All P [] = Unit
  All P (x ∷ xs) = P x × All P xs

-- How often a name occurs.
abbrev pub count : String → List String → ℕ
count x [] = 0
count x (y ∷ ys) = (if str_eq y x then 1 else 0) + count x ys

-- No name occurs twice.
abbrev pub Distinct : List String → Type 0
Distinct xs = (x : String) → count x xs ≤ 1

-- The two lists hold the same names, each as often.
abbrev pub SameNames : List String → List String → Type 0
SameNames xs ys = (x : String) → count x xs ≡ count x ys

pub count-append : (x : String) (xs ys : List String) → count x (xs ++ ys) ≡ count x xs + count x ys
count-append x [] ys = omega arith
count-append x (z ∷ xs) ys = omega (arith, count-append x xs ys)

-- `includes` of an array of strings.
unfoldable pub includes : List String → String → Bool
includes [] x = false
includes (y ∷ ys) x = str_eq y x || includes ys x

pub includes-count : (xs : List String) (x : String) → includes xs x ≡ true → 0 < count x xs
unfolding includes
includes-count [] x h = ground arith
includes-count (y ∷ ys) x h = ground (arith, includes-count ys x)

pub not_includes-count : (xs : List String) (x : String) → includes xs x ≡ false → count x xs ≡ 0
unfolding includes
not_includes-count [] x h = refl
not_includes-count (y ∷ ys) x h = ground (arith, not_includes-count ys x)

-- A test for `Distinct`.
abbrev pub all_distinct : List String → Bool
all_distinct [] = true
all_distinct (x ∷ xs) = not (includes xs x) && all_distinct xs

all_distinct-count : (xs : List String) (x : String) → all_distinct xs ≡ true → count x xs ≤ 1
all_distinct-count [] x h = omega arith
all_distinct-count (y ∷ ys) x h =
    ground (arith, eq_iff y x, not_includes-count ys y, all_distinct-count ys x)

pub all_distinct-Distinct : (xs : List String) → all_distinct xs ≡ true → Distinct xs
all_distinct-Distinct xs h x = all_distinct-count xs x h

-- `includes` of an array, by the equality test of its items.
unfoldable pub includes_of {ℓ} : {A : Type ℓ} → (A → A → Bool) → List A → A → Bool
includes_of same [] x = false
includes_of same (y ∷ ys) x = same y x || includes_of same ys x
