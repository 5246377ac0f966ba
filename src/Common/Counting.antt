-- ===== src/Common/Counting.antt =====
-- Lists of names compared by how often they hold each name.
use Prim.Native.Nat.{ℕ, suc, ◌+◌, ◌<◌, ◌≤◌}
use Prim.Native.String.{String}
use mathlib.Core.Path.{◌≡◌, refl}
use mathlib.Core.List.{List, [], ◌∷◌}
use native.Mathlib.Omega.{arith}
use text.Mathlib.Text.{◌==◌ as str_eq}
use text.Mathlib.TextEquality.{eq_iff}
use text.Mathlib.TextPositions.{eq_refl}
use dev_ops_deployment_tool.Common.Tests.{if◌then◌else◌}
use dev_ops_deployment_tool.Common.Lists.{length, count, Distinct, SameNames}

-- `xs` holds no name more often than `ys`.
abbrev pub Fits : List String → List String → Type 0
Fits xs ys = (x : String) → count x xs ≤ count x ys

erase : String → List String → List String
erase x [] = []
erase x (y ∷ ys) = if str_eq y x then ys else y ∷ erase x ys

length-erase :
    (x : String) (ys : List String) → 0 < count x ys → suc (length (erase x ys)) ≡ length ys
unfolding erase
length-erase x [] h = omega arith
length-erase x (y ∷ ys) h = ground (arith, length-erase x ys)

count-erase :
    (x z : String) (ys : List String)
    → 0 < count x ys
    → count z (erase x ys) + (if str_eq x z then 1 else 0) ≡ count z ys
unfolding erase
count-erase x z [] h = omega arith
count-erase x z (y ∷ ys) h = ground (arith, eq_iff y x, count-erase x z ys)

count_head : (x : String) (xs : List String) → count x (x ∷ xs) ≡ suc (count x xs)
count_head x xs = ground (arith, eq_refl x)

Fits-erase : (x : String) (xs ys : List String) → Fits (x ∷ xs) ys → Fits xs (erase x ys)
Fits-erase x xs ys h z = omega (arith, h z, count-erase x z ys, h x, count_head x xs)

pub Fits-length : (xs ys : List String) → Fits xs ys → length xs ≤ length ys
Fits-length [] ys h = omega arith
Fits-length (x ∷ xs) ys h = omega (
  arith,
  h x,
  count_head x xs,
  length-erase x ys,
  Fits-length xs (erase x ys) (Fits-erase x xs ys h),
)

pub Fits-SameNames : (xs ys : List String) → Fits xs ys → length xs ≡ length ys → SameNames xs ys
Fits-SameNames [] [] h e z = refl
Fits-SameNames [] (y ∷ ys) h e z = omega arith
Fits-SameNames (x ∷ xs) ys h e z =
    let inside : 0 < count x ys = omega (arith, h x, count_head x xs) in
    omega (
      arith,
      count-erase x z ys inside,
      Fits-SameNames xs (erase x ys) (Fits-erase x xs ys h)
          (omega (arith, length-erase x ys inside)) z,
    )

pub SameNames-length : (xs ys : List String) → SameNames xs ys → length xs ≡ length ys
SameNames-length xs ys h = omega (
  arith,
  Fits-length xs ys (λ x. omega (arith, h x)),
  Fits-length ys xs (λ x. omega (arith, h x)),
)

-- How many of the listed names occur in `done`, each as often as it is listed.
abbrev pub covered : List String → List String → ℕ
covered done [] = 0
covered done (d ∷ ds) = count d done + covered done ds

pub covered-nil : (ds : List String) → covered [] ds ≡ 0
covered-nil [] = refl
covered-nil (d ∷ ds) = omega (arith, covered-nil ds)

pub covered-cons :
    (n : String) (done ds : List String) → covered (n ∷ done) ds ≡ count n ds + covered done ds
covered-cons n done [] = omega arith
covered-cons n done (d ∷ ds) = ground (arith, eq_iff n d, eq_iff d n, covered-cons n done ds)

pub covered-le : (done ds : List String) → Distinct done → covered done ds ≤ length ds
covered-le done [] h = omega arith
covered-le done (d ∷ ds) h = omega (arith, h d, covered-le done ds h)

-- Only a list whose names all occur is covered as a whole.
pub covered_all :
    (done ds : List String) (d : String)
    → Distinct done
    → covered done ds ≡ length ds
    → 0 < count d ds
    → 0 < count d done
covered_all done [] d h e m = omega arith
covered_all done (x ∷ ds) d h e m =
    ground (arith, eq_iff x d, h x, covered-le done ds h, covered_all done ds d h)

pub all_covered :
    (done ds : List String)
    → Distinct done
    → ((d : String) → 0 < count d ds → 0 < count d done)
    → covered done ds ≡ length ds
all_covered done [] h all = refl
all_covered done (x ∷ ds) h all = omega (
  arith,
  h x,
  all x (omega (arith, count_head x ds)),
  all_covered done ds h (λ d m. all d (omega arith)),
)
