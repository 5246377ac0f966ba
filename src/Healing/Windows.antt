-- ===== src/Healing/Windows.antt =====
-- What the sliding window (sliding-window.ts) holds and when the health changes.
use dev_ops_deployment_tool.Common.{
  ℕ, zero, suc, ◌+◌, ◌-◌, ◌*◌, ◌≤◌, ◌<◌, ◌≡◌, ◌∙◌, ◌↔◌, sym, refl, Bool, List, [], ◌∷◌, ◌++◌,
  length, length-append, arith,
}
use mathlib.Core.List.{append-nil, append_assoc}
use dev_ops_deployment_tool.Healing.Window.{
  AggregateHealth, healthy, unhealthy, SlidingWindowState, Threshold, create_window, drop, trim,
  push_entry, pass_count, compute_health,
}

unfoldable pub push_all : SlidingWindowState → List Bool → SlidingWindowState
unfolding push_entry
push_all state [] = state
push_all state (x ∷ xs) = push_all (push_entry state x) xs

-- The last `size` results.
abbrev pub latest : ℕ → List Bool → List Bool
latest size xs = drop (length xs - size) xs

pub length-drop : (n : ℕ) (xs : List Bool) → length (drop n xs) ≡ length xs - n
unfolding drop
length-drop zero xs = omega arith
length-drop (suc n) [] = omega arith
length-drop (suc n) (x ∷ xs) = omega (arith, length-drop n xs)

drop-append : (n : ℕ) (xs ys : List Bool) → n ≤ length xs → drop n xs ++ ys ≡ drop n (xs ++ ys)
unfolding drop
drop-append zero xs ys h = refl
drop-append (suc n) [] ys h = absurd (omega arith)
drop-append (suc n) (x ∷ xs) ys h = drop-append n xs ys (omega arith)

drop-nil : (n : ℕ) → drop n [] ≡ []
unfolding drop
drop-nil zero = refl
drop-nil (suc n) = refl

drop-drop : (m n k : ℕ) (xs : List Bool) → n + m ≡ k → drop m (drop n xs) ≡ drop k xs
unfolding drop
drop-drop m zero k xs e = let same : m ≡ k = omega arith in rw same refl
drop-drop m (suc n) zero xs e = absurd (omega arith)
drop-drop m (suc n) (suc k) [] e = drop-nil m
drop-drop m (suc n) (suc k) (x ∷ xs) e = drop-drop m n k xs (omega arith)

pub trim-latest : (size : ℕ) (xs : List Bool) → trim size xs ≡ latest size xs
unfolding trim drop
trim-latest size xs = ground arith

latest-snoc :
    (size : ℕ) (xs : List Bool) (x : Bool)
    → latest size (latest size xs ++ x ∷ []) ≡ latest size (xs ++ x ∷ [])
latest-snoc size xs x =
    let n = length xs - size in
    rw (drop-append n xs (x ∷ []) (omega arith)) (
      drop-drop (length (drop n (xs ++ x ∷ [])) - size) n (length (xs ++ x ∷ []) - size)
        (xs ++ x ∷ []) (omega (arith, length-drop n (xs ++ x ∷ []), length-append xs (x ∷ []))))

push_all-latest :
    (state : SlidingWindowState) (xs ys : List Bool)
    → state.entries ≡ latest state.window_size xs
    → (push_all state ys).entries ≡ latest state.window_size (xs ++ ys)
unfolding push_all push_entry
push_all-latest state xs [] e = rw append-nil e
push_all-latest state xs (y ∷ ys) e =
    push_all-latest (push_entry state y) (xs ++ y ∷ []) ys (
      trim-latest state.window_size (state.entries ++ y ∷ [])
      ∙ (rw e (latest-snoc state.window_size xs y)))
    ∙ (rw append_assoc refl)

-- A window that has been given the results `xs` holds the latest of them, at most as many as its size,
-- in their order.
pub push_all_lem :
    (size : ℕ) (xs : List Bool)
    → ((push_all (create_window size) xs).entries ≡ latest size xs)
      × (length (push_all (create_window size) xs).entries ≤ size)
push_all_lem size xs =
    let e : (push_all (create_window size) xs).entries ≡ latest size xs =
      push_all-latest (create_window size) [] xs (sym (drop-nil (0 - size))) in
    (e, rw e (omega (arith, length-drop (length xs - size) xs)))

-- The thresholds 0.8 and 0.5 of the health monitor.
abbrev pub healthy_threshold : Threshold
healthy_threshold = record { num = 4; den = 5 }

abbrev pub degraded_threshold : Threshold
degraded_threshold = record { num = 1; den = 2 }

-- The health that the monitor computes from some results.
abbrev pub health_of : List Bool → AggregateHealth
health_of xs =
    compute_health (record { entries = xs; window_size = 10 }) healthy_threshold degraded_threshold

abbrev HealthLaw : List Bool → AggregateHealth → Type 0
HealthLaw xs h =
    ((h ≡ unhealthy) ↔ (pass_count xs * 2 < length xs))
    × ((h ≡ healthy) ↔ (4 * length xs ≤ pass_count xs * 5))

health_of_law : (xs : List Bool) → HealthLaw xs (health_of xs)
unfolding compute_health
health_of_law [] = ground arith
health_of_law (x ∷ xs) = ground arith

-- After any results, the health that is computed from the monitor's window is unhealthy exactly if
-- fewer than half of the latest ten results have passed, and healthy exactly if at least four fifths
-- of them have.
pub compute_health_iff :
    (xs : List Bool)
    → ((compute_health (push_all (create_window 10) xs) healthy_threshold degraded_threshold
          ≡ unhealthy)
        ↔ (pass_count (latest 10 xs) * 2 < length (latest 10 xs)))
      × ((compute_health (push_all (create_window 10) xs) healthy_threshold degraded_threshold
            ≡ healthy)
          ↔ (4 * length (latest 10 xs) ≤ pass_count (latest 10 xs) * 5))
unfolding compute_health
compute_health_iff xs = rw ((push_all_lem 10 xs).0) (health_of_law (latest 10 xs))
