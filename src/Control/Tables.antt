-- ===== src/Control/Tables.antt =====
-- Tables as lists of rows, with the calls of the database's client that the routes make: `select`
-- with `single` or `maybeSingle`, and `update` of the rows that a filter finds.
use dev_ops_deployment_tool.Common.{
  ℕ, ◌≡◌, ◌≢◌, refl, sym, ◌∙◌, ◌⊎◌, inl, inr, Bool, true, false, Option, none, some, List, [], ◌∷◌,
  arith, if◌then◌else◌, Bool-cases,
}
use mathlib.Core.Path.{subst}

-- The rows that a filter finds.
unfoldable pub select {ℓ} : {A : Type ℓ} → (A → Bool) → List A → List A
select test [] = []
select test (x ∷ xs) = let rest = select test xs in if test x then x ∷ rest else rest

-- The row of an answer of one row. Any other answer has no `data`.
abbrev pub single {ℓ} : {A : Type ℓ} → List A → Option A
single [] = none
single (x ∷ []) = some x
single (x ∷ y ∷ xs) = none

-- The rows that a filter finds are changed.
unfoldable pub update {ℓ} : {A : Type ℓ} → (A → Bool) → (A → A) → List A → List A
update test change [] = []
update test change (x ∷ xs) = (if test x then change x else x) ∷ update test change xs

module _ {A : Type 0} where
  abbrev pub In : A → List A → Type 0
  In x [] = ⊥
  In x (y ∷ ys) = (x ≡ y) ⊎ In x ys

  -- Each row of the first table, changed as `R` allows, and no other.
  abbrev pub Each : (A → A → Type 0) → List A → List A → Type 0
  Each R [] [] = Unit
  Each R [] (y ∷ ys) = ⊥
  Each R (x ∷ xs) [] = ⊥
  Each R (x ∷ xs) (y ∷ ys) = R x y × Each R xs ys

  pub select-In :
      (test : A → Bool) (x : A) (xs : List A) → In x (select test xs) → In x xs × (test x ≡ true)
  unfolding select
  select-In test x [] h = absurd h
  select-In test x (y ∷ ys) h = elim (Bool-cases (test y)) [
    | inl t ↦ elim (rw t at h) [
      | inl e ↦ (inl e, rw e t)
      | inr m ↦ let (i, u) = select-In test x ys m in (inr i, u)
    ]
    | inr f ↦ let (i, u) = select-In test x ys (rw f at h) in (inr i, u)
  ]

  pub In-select :
      (test : A → Bool) (x : A) (xs : List A) → In x xs → test x ≡ true → In x (select test xs)
  unfolding select
  In-select test x [] h t = absurd h
  In-select test x (y ∷ ys) (inl e) t = rw (← e) (rw t (inl refl))
  In-select test x (y ∷ ys) (inr m) t = elim (Bool-cases (test y)) [
    | inl u ↦ rw u (inr (In-select test x ys m t))
    | inr f ↦ rw f (In-select test x ys m t)
  ]

  single_only : (r x : A) (xs : List A) → single xs ≡ some r → In x xs → x ≡ r
  single_only r x [] e h = absurd h
  single_only r x (y ∷ []) e (inl h) = cc
  single_only r x (y ∷ []) e (inr h) = absurd h
  single_only r x (y ∷ z ∷ ys) e h = cc

  single-In_answer : (r : A) (xs : List A) → single xs ≡ some r → In r xs
  single-In_answer r [] e = cc
  single-In_answer r (y ∷ []) e = inl (cc)
  single-In_answer r (y ∷ z ∷ ys) e = cc

  -- The one row found is a row of the table that passes the filter.
  pub single-In :
      (test : A → Bool) (r : A) (xs : List A)
      → single (select test xs) ≡ some r
      → In r xs × (test r ≡ true)
  single-In test r xs e = select-In test r xs (single-In_answer r (select test xs) e)

  -- No other row passes the filter.
  pub single-eq :
      (test : A → Bool) (r x : A) (xs : List A)
      → single (select test xs) ≡ some r
      → In x xs
      → test x ≡ true
      → x ≡ r
  single-eq test r x xs e m t = single_only r x (select test xs) e (In-select test x xs m t)

  module _ (R : A → A → Type 0) where
    pub Each-refl : ((x : A) → R x x) → (xs : List A) → Each R xs xs
    Each-refl h [] = tt
    Each-refl h (x ∷ xs) = (h x, Each-refl h xs)

    -- An update keeps to `R` if every row that it finds may change so.
    pub Each-update :
        (test : A → Bool) (change : A → A)
        → ((x : A) → R x x)
        → (xs : List A) → ((x : A) → In x xs → test x ≡ true → R x (change x))
        → Each R xs (update test change xs)
    unfolding update
    Each-update test change same [] h = tt
    Each-update test change same (x ∷ xs) h = (
      elim (Bool-cases (test x)) [ inl t ↦ rw t (h x (inl refl) t) | inr f ↦ rw f (same x) ],
      Each-update test change same xs (λ y m. h y (inr m)),
    )

    pub Each-update_if :
        (test : A → Bool) (change : A → A) (xs : List A)
        → ((x : A) → In x xs → test x ≡ true → R x (change x))
        → ((x : A) → In x xs → test x ≡ false → R x x)
        → Each R xs (update test change xs)
    unfolding update
    Each-update_if test change [] h k = tt
    Each-update_if test change (x ∷ xs) h k = (
      elim (Bool-cases (test x)) [
        | inl t ↦ rw t (h x (inl refl) t)
        | inr f ↦ rw f (k x (inl refl) f)
      ],
      Each-update_if test change xs (λ y m. h y (inr m)) (λ y m. k y (inr m)),
    )

    -- Where a row of the second table comes from.
    pub Each-In : (xs ys : List A) (y : A) → Each R xs ys → In y ys → (x : A) × In x xs × R x y
    Each-In [] [] y e m = absurd m
    Each-In [] (z ∷ ys) y e m = absurd e
    Each-In (x ∷ xs) [] y e m = absurd m
    Each-In (x ∷ xs) (z ∷ ys) y e (inl same) = (x, inl refl, rw same e.0)
    Each-In (x ∷ xs) (z ∷ ys) y e (inr m) = let (w, i, r) = Each-In xs ys y e.1 m in (w, inr i, r)

    pub Each-trans :
        ((x y z : A) → R x y → R y z → R x z)
        → (xs ys zs : List A) → Each R xs ys
        → Each R ys zs
        → Each R xs zs
    Each-trans h [] [] zs p q = q
    Each-trans h [] (y ∷ ys) zs p q = absurd p
    Each-trans h (x ∷ xs) [] zs p q = absurd p
    Each-trans h (x ∷ xs) (y ∷ ys) [] p q = absurd q
    Each-trans h (x ∷ xs) (y ∷ ys) (z ∷ zs) p q = (h x y z p.0 q.0, Each-trans h xs ys zs p.1 q.1)

    pub Each-map :
        (S : A → A → Type 0) (xs ys : List A)
        → ((x y : A) → In x xs → R x y → S x y)
        → Each R xs ys
        → Each S xs ys
    Each-map S [] [] h e = tt
    Each-map S [] (y ∷ ys) h e = absurd e
    Each-map S (x ∷ xs) [] h e = absurd e
    Each-map S (x ∷ xs) (y ∷ ys) h e =
        (h x y (inl refl) e.0, Each-map S xs ys (λ u v m. h u v (inr m)) e.1)

  -- A row is kept, or changed once where `P` holds.
  abbrev pub Once : (A → Type 0) → (A → A) → A → A → Type 0
  Once P change x y = (y ≡ x) ⊎ (P x × (y ≡ change x))

  pub Once-trans :
      (P : A → Type 0) (change : A → A)
      → ((x : A) → P (change x) → ⊥)
      → (x y z : A) → Once P change x y
      → Once P change y z
      → Once P change x z
  Once-trans P change once x y z (inl p) (inl q) = inl (q ∙ p)
  Once-trans P change once x y z (inl p) (inr q) = rw (← p) (inr q)
  Once-trans P change once x y z (inr p) (inl q) = inr (p.0, q ∙ p.1)
  Once-trans P change once x y z (inr p) (inr q) = absurd (once x (subst P p.1 q.0))

  single-cons : (x r : A) (xs : List A) → single (x ∷ xs) ≡ some r → (x ≡ r) × (xs ≡ [])
  single-cons x r [] h = (ground arith, refl)
  single-cons x r (y ∷ xs) h = absurd (ground arith)

  module _ (p q : A → Bool) (narrower : (x : A) → q x ≡ true → p x ≡ true) where
    select-none :
        (change : A → A) (xs : List A)
        → select p xs ≡ []
        → (select q xs ≡ []) × (update q change xs ≡ xs)
    unfolding select update
    select-none change [] h = (refl, refl)
    select-none change (x ∷ xs) h = ground (arith, narrower x, select-none change xs)

    -- A narrower filter finds the one row of a table that a filter finds, or none.
    pub single-narrow :
        (change : A → A) (r : A) (xs : List A)
        → single (select p xs) ≡ some r
        → (q r ≡ true → select q xs ≡ r ∷ [])
          × (q r ≡ false → (select q xs ≡ []) × (update q change xs ≡ xs))
    unfolding select update
    single-narrow change r [] h = absurd (ground arith)
    single-narrow change r (x ∷ xs) h = elim (Bool-cases (p x)) [
      | inl e ↦
          let (same, empty) = single-cons x r (select p xs) (rw e at h) in
          let (a, b) = select-none change xs empty in (λ t. ground arith, λ f. ground arith)
      | inr e ↦
          let (a, b) = single-narrow change r xs (rw e at h) in
          (λ t. ground (arith, narrower x), λ f. ground (arith, narrower x))
    ]

-- No two rows have the same key.
abbrev pub Unique : {A : Type 0} → (A → ℕ) → List A → Type 0
Unique key [] = Unit
Unique key (x ∷ xs) = ((y : _) → In y xs → key y ≢ key x) × Unique key xs

module _ {A : Type 0} (key : A → ℕ) where
  pub Unique-eq :
      (xs : List A) → Unique key xs → (x y : A) → In x xs → In y xs → key x ≡ key y → x ≡ y
  Unique-eq [] u x y i j e = absurd i
  Unique-eq (z ∷ zs) u x y (inl i) (inl j) e = cc
  Unique-eq (z ∷ zs) u x y (inl i) (inr j) e = absurd (u.0 y j (rw (← i) (sym e)))
  Unique-eq (z ∷ zs) u x y (inr i) (inl j) e = absurd (u.0 x i (rw (← j) e))
  Unique-eq (z ∷ zs) u x y (inr i) (inr j) e = Unique-eq zs u.1 x y i j e

  pub Unique-Each :
      (R : A → A → Type 0)
      → ((x y : A) → R x y → key y ≡ key x)
      → (xs ys : List A) → Unique key xs
      → Each R xs ys
      → Unique key ys
  Unique-Each R same [] [] u e = tt
  Unique-Each R same [] (y ∷ ys) u e = absurd e
  Unique-Each R same (x ∷ xs) [] u e = absurd e
  Unique-Each R same (x ∷ xs) (y ∷ ys) u e = (
    λ z m k.
        let (w, i, r) = Each-In R xs ys z e.1 m in u.0 w i (sym (same w z r) ∙ k ∙ same x y e.0),
    Unique-Each R same xs ys u.1 e.1,
  )
