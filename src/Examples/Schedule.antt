-- ===== src/Examples/Schedule.antt =====
-- Tests of warmup schedules.
use aimebu.Prelude.{bytes, same, text_eq, nat_eq, ℕ, ◌≡◌, refl, true, false, some, [], ◌∷◌}
use aimebu.Usages.Schedule.{
  CronValue, WarmupSchedule, Moment, rejected, parsed, parse_warmup_schedule,
  parse_warmup_schedules, warmup_schedules_match,
}
use aimebu.Usages.Schedule.Accepted.{parse_warmup_schedule-is_valid}
use aimebu.Usages.Schedule.Printing.{is_valid, print_schedule, parse-print}

abbrev every : CronValue
every = record { is_any = true; value = 0 }

abbrev at : ℕ → CronValue
at n = record { is_any = false; value = n }

-- Half past six, on the first of a month and on Mondays.
abbrev mornings : WarmupSchedule
mornings = record {
  minute = at 30;
  hour = at 6;
  day_of_month = at 1;
  month = every;
  day_of_week = at 1;
}

abbrev monday : Moment
monday = record { minute = 30; hour = 6; day = 9; month = 11; weekday = 1 }

line_test : print_schedule mornings ≡ bytes "30 6 1 * 1"
line_test = refl

sunday_test :
    parse_warmup_schedule (bytes " 0 +7  * * 7 ")
    ≡ parsed (record {
      minute = at 0;
      hour = at 7;
      day_of_month = every;
      month = every;
      day_of_week = at 0;
    })
unfolding parse_warmup_schedule same
sunday_test = refl

range_test : parse_warmup_schedule (bytes "60 6 1 * 1") ≡ rejected
unfolding parse_warmup_schedule same
range_test = refl

lines_test : parse_warmup_schedules (bytes "30 6 1 * 1" ∷ bytes " " ∷ []) ≡ some (mornings ∷ [])
unfolding parse_warmup_schedules same
lines_test = refl

matches_test : warmup_schedules_match (mornings ∷ []) monday ≡ true
unfolding warmup_schedules_match
matches_test = refl

parse-print_example : parse_warmup_schedule (print_schedule mornings) ≡ parsed mornings
parse-print_example = parse-print mornings refl

mornings_read : parse_warmup_schedule (bytes "30 6 1 * 1") ≡ parsed mornings
unfolding parse_warmup_schedule same
mornings_read = refl

parse_warmup_schedule-is_valid_example :
    (is_valid mornings ≡ true) × (parse_warmup_schedule (print_schedule mornings) ≡ parsed mornings)
parse_warmup_schedule-is_valid_example =
    parse_warmup_schedule-is_valid (bytes "30 6 1 * 1") mornings mornings_read
