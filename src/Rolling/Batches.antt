-- ===== src/Rolling/Batches.antt =====
-- The loop over the ordinals visits each of them once, in batches of at most `max_unavailable`.
use dev_ops_deployment_tool.Common.{
  ℕ, zero, suc, ◌+◌, ◌-◌, ◌<◌, ◌≤◌, ◌≡◌, refl, sym, ap, ◌∙◌, List, [], ◌∷◌, ◌++◌, arith, Bool-cases,
  inl, inr, ltb, length, All, dec_lt,
}
use mathlib.Core.List.{append-nil}
use dev_ops_deployment_tool.Rolling.Plan.{ordinals_from, batches, min}

-- The lists one after another.
abbrev pub in_order : List (List ℕ) → List ℕ
in_order [] = []
in_order (xs ∷ xss) = xs ++ in_order xss

abbrev pub AtMost : ℕ → List ℕ → Type 0
AtMost m xs = length xs ≤ m

ordinals_from-length : (i k : ℕ) → length (ordinals_from i k) ≡ k
unfolding ordinals_from
ordinals_from-length i zero = refl
ordinals_from-length i (suc k) = omega (arith, ordinals_from-length (suc i) k)

pub ordinals_from-append :
    (i k l : ℕ) → ordinals_from i k ++ ordinals_from (i + k) l ≡ ordinals_from i (k + l)
unfolding ordinals_from
ordinals_from-append i zero l =
    ap (λ (x : ℕ). ordinals_from x l) (omega arith) ∙ ap (ordinals_from i) (omega arith)
ordinals_from-append i (suc k) l =
    let e : i + suc k ≡ suc i + k = omega arith in
    let e' : suc k + l ≡ suc (k + l) = omega arith in
    rw (e, e') (ap (λ (xs : List ℕ). i ∷ xs) (ordinals_from-append (suc i) k l))

pub batches-done : (fuel count m i : ℕ) → count ≤ i → batches fuel count m i ≡ []
unfolding batches
batches-done zero count m i le = refl
batches-done (suc fuel) count m i le = ground arith

pub batches-step :
    (fuel count m i : ℕ)
    → i < count
    → batches (suc fuel) count m i
      ≡ ordinals_from i (min m (count - i)) ∷ batches fuel count m (i + m)
unfolding batches
batches-step fuel count m i lt = ground arith

batches-in_order :
    (fuel count m i : ℕ)
    → 0 < m
    → count ≤ fuel + i
    → in_order (batches fuel count m i) ≡ ordinals_from i (count - i)
unfolding ordinals_from
batches-in_order zero count m i pos enough =
    let e : count - i ≡ 0 = omega arith in rw (batches-done zero count m i (omega arith), e) refl
batches-in_order (suc fuel) count m i pos enough = elim (dec_lt i count) [
  | no n ↦
      let e : count - i ≡ 0 = omega arith in
      rw (batches-done (suc fuel) count m i (omega arith), e) refl
  | yes lt ↦ elim (dec_lt (count - i) m) [
    | yes last ↦
        let e : min m (count - i) ≡ count - i = ground arith in
        rw (batches-step fuel count m i lt, batches-done fuel count m (i + m) (omega arith), e)
          (append-nil (ordinals_from i (count - i)))
    | no n ↦
        let e : min m (count - i) ≡ m = ground arith in
        let e' : count - i ≡ m + (count - (i + m)) = omega arith in
        rw
          (
            batches-step fuel count m i lt,
            batches-in_order fuel count m (i + m) pos (omega arith),
            e,
            e',
          )
          (ordinals_from-append i m (count - (i + m)))
  ]
]

batches-AtMost : (fuel count m i : ℕ) → All (AtMost m) (batches fuel count m i)
unfolding batches
batches-AtMost zero count m i = tt
batches-AtMost (suc fuel) count m i = elim (Bool-cases (ltb i count)) [
  | inl e ↦ rw e (
    ground (arith, ordinals_from-length i (min m (count - i))),
    batches-AtMost fuel count m (i + m),
  )
  | inr e ↦ rw e tt
]

-- Another unit of fuel changes nothing.
batches-enough :
    (fuel count m i : ℕ)
    → 0 < m
    → count ≤ fuel + i
    → batches (suc fuel) count m i ≡ batches fuel count m i
batches-enough zero count m i pos enough =
    batches-done 1 count m i (omega arith) ∙ sym (batches-done 0 count m i (omega arith))
batches-enough (suc fuel) count m i pos enough = elim (dec_lt i count) [
  | no n ↦
      batches-done (suc (suc fuel)) count m i (omega arith)
      ∙ sym (batches-done (suc fuel) count m i (omega arith))
  | yes lt ↦
      rw
        (
          batches-step (suc fuel) count m i lt,
          batches-step fuel count m i lt,
          batches-enough fuel count m (i + m) pos (omega arith),
        )
        refl
]

-- With a positive `max_unavailable`, the loop `for (let i = 0; i < count; i += max_unavailable)` ends
-- after at most `count` rounds; its batches, one after another, are the ordinals below `count` in
-- their order, and none has more than `max_unavailable` ordinals.
pub batches_lem :
    (count m : ℕ)
    → 0 < m
    → (batches (suc count) count m 0 ≡ batches count count m 0)
      × (in_order (batches count count m 0) ≡ ordinals_from 0 count)
      × All (AtMost m) (batches count count m 0)
batches_lem count m pos =
    let e : count - 0 ≡ count = omega arith in
    (
      batches-enough count count m 0 pos (omega arith),
      batches-in_order count count m 0 pos (omega arith) ∙ ap (ordinals_from 0) e,
      batches-AtMost count count m 0,
    )
