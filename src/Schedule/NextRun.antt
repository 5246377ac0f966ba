-- ===== src/Schedule/NextRun.antt =====
-- The run that the search of a schedule finds is the first one.
use dev_ops_deployment_tool.Common.{
  ℕ, zero, suc, ◌+◌, ◌*◌, ◌/◌, ◌<◌, ◌≤◌, ◌≡◌, refl, ap, sym, ◌∙◌, inl, inr, true, false, Bool-cases,
  dec_lt, ◌-◌, some, arith,
}
use mathlib.Core.Path.{subst}
use dev_ops_deployment_tool.Schedule.{
  CronParts, WallClock, ms_per_minute, max_iterations, is_match, next_minute, search,
  get_next_cron_run,
}

module _ (read_clock : ℕ → WallClock) (parts : CronParts) where
  abbrev Hit : ℕ → Type 0
  Hit t = is_match parts (read_clock t) ≡ true

  search-Hit : (n c : ℕ) → Hit c → search read_clock parts (suc n) c ≡ some c
  unfolding search
  search-Hit n c hit = rw hit refl

  search-miss :
      (n c : ℕ)
      → is_match parts (read_clock c) ≡ false
      → search read_clock parts (suc n) c ≡ search read_clock parts n (c + ms_per_minute)
  unfolding search
  search-miss n c miss = rw miss refl

  -- The search ends at a match no later than the given one.
  search_finds :
      (n c k : ℕ)
      → k < n
      → Hit (c + k * ms_per_minute)
      → (j : ℕ) × (j ≤ k)
        × (search read_clock parts n c ≡ some (c + j * ms_per_minute))
        × Hit (c + j * ms_per_minute)
  search_finds zero c k lt hit = absurd (omega arith)
  search_finds (suc n) c k lt hit = elim (Bool-cases (is_match parts (read_clock c))) [
    | inl now ↦
        let e : c ≡ c + 0 * ms_per_minute = omega arith in
        (0, omega arith, search-Hit n c now ∙ ap (λ (t : ℕ). some t) e, subst Hit e now)
    | inr miss ↦ elim (dec_lt 0 k) [
      | yes later ↦
          let e : c + k * ms_per_minute ≡ c + ms_per_minute + (k - 1) * ms_per_minute =
            omega arith in
          let (j, le, found, match) =
            search_finds n (c + ms_per_minute) (k - 1) (omega arith) (subst Hit e hit) in
          let e' : c + ms_per_minute + j * ms_per_minute ≡ c + suc j * ms_per_minute =
            omega arith in
          (
            suc j,
            omega arith,
            search-miss n c miss ∙ found ∙ ap (λ (t : ℕ). some t) e',
            subst Hit e' match,
          )
      | no first ↦
          let e : c + k * ms_per_minute ≡ c = omega arith in
          let clash : true ≡ false = sym (subst Hit e hit) ∙ miss in ground arith
    ]
  ]

-- For any time zone's clock and any whole minute that matches the expression, after `after` and within
-- 366 days of it: the search returns a whole minute that matches, is strictly after `after` and no
-- later than the given one; so it returns the first match, and throws only if there is none.
pub get_next_cron_run_lem :
    (read_clock : ℕ → WallClock) (parts : CronParts) (after m : ℕ)
    → after < m * ms_per_minute
    → m * ms_per_minute ≤ after + max_iterations * ms_per_minute
    → is_match parts (read_clock (m * ms_per_minute)) ≡ true
    → (q : ℕ) × (q ≤ m)
      × (after < q * ms_per_minute)
      × (get_next_cron_run read_clock parts after ≡ some (q * ms_per_minute))
      × (is_match parts (read_clock (q * ms_per_minute)) ≡ true)
unfolding get_next_cron_run next_minute
get_next_cron_run_lem read_clock parts after m past near hit =
    let b = after / ms_per_minute in
    let c = b * ms_per_minute + ms_per_minute in
    let e : m * ms_per_minute ≡ c + (m - suc b) * ms_per_minute = omega arith in
    let (j, le, found, match) =
      search_finds read_clock parts max_iterations c (m - suc b) (omega arith)
        (subst (Hit read_clock parts) e hit) in
    let e' : c + j * ms_per_minute ≡ (suc b + j) * ms_per_minute = omega arith in
    (
      suc b + j,
      omega arith,
      omega arith,
      found ∙ ap (λ (t : ℕ). some t) e',
      subst (Hit read_clock parts) e' match,
    )
