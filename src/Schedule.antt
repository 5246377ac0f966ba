-- ===== src/Schedule.antt =====
-- The search for the next run of a schedule, packages/shared/src/validators/schedule.ts.
--
-- An instant is a number of milliseconds since 1970. The wall clock that `Date` or `Intl` reads off
-- an instant is a parameter.
pub mod NextRun
pub mod Samples
use dev_ops_deployment_tool.Common.{
  ℕ, zero, suc, ◌+◌, ◌*◌, ◌/◌, Bool, ◌&&◌, if◌then◌else◌, Option, none, some, List, ◌==◌,
  includes_of,
}

pub record CronParts : Type 0 where
  pub minute : List ℕ
  pub hour : List ℕ
  pub day_of_month : List ℕ
  pub month : List ℕ
  pub day_of_week : List ℕ

pub record WallClock : Type 0 where
  pub minute : ℕ
  pub hour : ℕ
  pub day_of_month : ℕ
  pub month : ℕ
  pub day_of_week : ℕ

abbrev pub ms_per_minute : ℕ
ms_per_minute = 60000

abbrev pub max_iterations : ℕ
max_iterations = 366 * 24 * 60

abbrev among : List ℕ → ℕ → Bool
among = includes_of (λ (a b : ℕ). a == b)

unfoldable pub is_match : CronParts → WallClock → Bool
is_match parts clock =
    among parts.minute clock.minute
    && among parts.hour clock.hour
    && among parts.day_of_month clock.day_of_month
    && among parts.month clock.month
    && among parts.day_of_week clock.day_of_week

-- The next whole minute after an instant.
unfoldable pub next_minute : ℕ → ℕ
next_minute after = after / ms_per_minute * ms_per_minute + ms_per_minute

module _ (read_clock : ℕ → WallClock) (parts : CronParts) where
  -- `none`: no match within the iterations, an exception.
  unfoldable pub search : ℕ → ℕ → Option ℕ
  search zero candidate = none
  search (suc iterations) candidate =
      let rest = search iterations (candidate + ms_per_minute) in
      if is_match parts (read_clock candidate) then some candidate else rest

  unfoldable pub get_next_cron_run : ℕ → Option ℕ
  get_next_cron_run after = search max_iterations (next_minute after)
