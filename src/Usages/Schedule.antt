-- ===== src/Usages/Schedule.antt =====
-- internal/usages/warmup_schedule.go: the cron subset of Claude's warmup. What time.Time says of a
-- moment is given.
pub mod Printing
pub mod Accepted
use aimebu.Prelude.{
  any, Text, bytes, text_eq, is_space, trim_space, ltb, leb, if◌then◌else◌, ◌==◌, nat_eq, ℕ, ◌+◌,
  ◌-◌, ◌*◌, Bool, true, false, not, ◌&&◌, ◌||◌, Option, none, some, List, [], ◌∷◌,
}

pub record CronValue : Type 0 where
  pub is_any : Bool
  pub value : ℕ

pub record WarmupSchedule : Type 0 where
  pub minute : CronValue
  pub hour : CronValue
  pub day_of_month : CronValue
  pub month : CronValue
  pub day_of_week : CronValue

-- The minute, hour, day, month and weekday of a time, Sunday being 0.
pub record Moment : Type 0 where
  pub minute : ℕ
  pub hour : ℕ
  pub day : ℕ
  pub month : ℕ
  pub weekday : ℕ

-- No schedule, a schedule, or an error.
pub data Parsed : Type 0 where
  unset rejected : Parsed
  parsed : WarmupSchedule → Parsed

-- strings.Fields: the first word, and those after it.
pub add_word : Text → List Text → List Text
add_word [] ws = ws
add_word (c ∷ w) ws = (c ∷ w) ∷ ws

pub split_words : Text → Text × List Text
unfolding is_space add_word
split_words [] = ([], [])
split_words (c ∷ s) =
    let (w, ws) = split_words s in if is_space c then ([], add_word w ws) else (c ∷ w, ws)

unfoldable pub fields : Text → List Text
unfolding split_words add_word
fields s = add_word (split_words s).0 (split_words s).1

digits_value : ℕ → Text → Option ℕ
digits_value n [] = some n
digits_value n (c ∷ s) =
    let rest = digits_value (10 * n + (c - 48)) s in if leb 48 c && leb c 57 then rest else none

-- strconv.Atoi, of a value in a range; what is out of int's range is out of any field's.
unfoldable pub atoi_within : ℕ → ℕ → Text → Option ℕ
unfolding digits_value
atoi_within low high text =
    let (minus, digits) : Bool × Text = elim text [
      | [] ↦ (false, [])
      | c ∷ s ↦ if c == 45 then (true, s) else if c == 43 then (false, s) else (false, c ∷ s)
    ] in
    if digits == [] then none else elim (digits_value 0 digits) [
      | none ↦ none
      | some n ↦ if (minus && ltb 0 n) || (ltb n low || ltb high n) then none else some n
    ]

unfoldable pub parse_field : ℕ → ℕ → Text → Option CronValue
unfolding atoi_within
parse_field low high text =
    if text == bytes "*"
    then some (record { is_any = true; value = 0 })
    else elim (atoi_within low high text) [
      | none ↦ none
      | some n ↦ some (record { is_any = false; value = n })
    ]

-- Both 0 and 7 mean Sunday.
abbrev pub sunday : CronValue → CronValue
sunday v = if not v.is_any && v.value == 7 then record v { value = 0 } else v

-- The lowest and the highest value of each field.
abbrev pub specs : List (ℕ × ℕ)
specs = (0, 59) ∷ (0, 23) ∷ (1, 31) ∷ (1, 12) ∷ (0, 7) ∷ []

-- The loop over the fields; as many fields are wanted as there are specs.
pub parse_values : List (ℕ × ℕ) → List Text → Option (List CronValue)
unfolding parse_field
parse_values [] [] = some []
parse_values ((low, high) ∷ ss) (t ∷ ts) =
    let rest = parse_values ss ts in
    elim (parse_field low high t) [
      | none ↦ none
      | some v ↦ elim rest [ none ↦ none | some vs ↦ some (v ∷ vs) ]
    ]
parse_values [] (t ∷ ts) = none
parse_values (s ∷ ss) [] = none

pub schedule_of : List CronValue → Parsed
schedule_of (a ∷ b ∷ c ∷ d ∷ e ∷ []) =
    parsed (record { minute = a; hour = b; day_of_month = c; month = d; day_of_week = sunday e })
schedule_of _ = rejected

unfoldable pub parse_warmup_schedule : Text → Parsed
unfolding trim_space fields parse_values schedule_of
parse_warmup_schedule raw =
    let text = trim_space raw in
    if text == []
    then unset
    else elim (parse_values specs (fields text)) [ none ↦ rejected | some vs ↦ schedule_of vs ]

-- Of the lines of the setting.
unfoldable pub parse_warmup_schedules : List Text → Option (List WarmupSchedule)
unfolding trim_space parse_warmup_schedule
parse_warmup_schedules [] = some []
parse_warmup_schedules (line ∷ lines) =
    let rest = parse_warmup_schedules lines in
    if trim_space line == [] then rest else elim (parse_warmup_schedule line) [
      | parsed s ↦ elim rest [ none ↦ none | some ss ↦ some (s ∷ ss) ]
      | _ ↦ none
    ]

abbrev pub value_matches : CronValue → ℕ → Bool
value_matches v n = v.is_any || v.value == n

-- A restricted day of the month and a restricted weekday are alternatives.
unfoldable pub schedule_matches : WarmupSchedule → Moment → Bool
schedule_matches s now =
    let day = value_matches s.day_of_month now.day in
    let weekday = value_matches s.day_of_week now.weekday in
    if not (value_matches s.minute now.minute)
      || (not (value_matches s.hour now.hour) || not (value_matches s.month now.month))
    then false
    else if not s.day_of_month.is_any && not s.day_of_week.is_any
    then day || weekday
    else day && weekday

unfoldable pub warmup_schedules_match : List WarmupSchedule → Moment → Bool
unfolding schedule_matches
warmup_schedules_match ss now = any (λ s. schedule_matches s now) ss
