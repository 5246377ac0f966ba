-- ===== src/Schedule/Samples.antt =====
-- A schedule at half past two hours of a day.
use dev_ops_deployment_tool.Common.{
  ℕ, ◌*◌, ◌/◌, ◌%◌, ◌<◌, ◌≤◌, ◌≡◌, refl, true, some, [], ◌∷◌, includes_of, arith,
}
use dev_ops_deployment_tool.Schedule.{
  CronParts, WallClock, ms_per_minute, is_match, get_next_cron_run,
}
use dev_ops_deployment_tool.Schedule.NextRun.{get_next_cron_run_lem}

abbrev half_past : CronParts
half_past = record {
  minute = 30 ∷ [];
  hour = 0 ∷ 1 ∷ [];
  day_of_month = 1 ∷ [];
  month = 1 ∷ [];
  day_of_week = 4 ∷ [];
}

-- The clock of the first day of 1970, in UTC.
abbrev first_day : ℕ → WallClock
first_day t = record {
  minute = t / ms_per_minute % 60;
  hour = t / ms_per_minute / 60;
  day_of_month = 1;
  month = 1;
  day_of_week = 4;
}

minute_90-matches : is_match half_past (first_day (90 * ms_per_minute)) ≡ true
unfolding is_match includes_of
minute_90-matches = refl

get_next_cron_run_lem_example :
    (q : ℕ) × (q ≤ 90)
    × (12345 < q * ms_per_minute)
    × (get_next_cron_run first_day half_past 12345 ≡ some (q * ms_per_minute))
    × (is_match half_past (first_day (q * ms_per_minute)) ≡ true)
get_next_cron_run_lem_example =
    get_next_cron_run_lem first_day half_past 12345 90 (omega arith) (omega arith) minute_90-matches
