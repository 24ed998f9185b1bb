-- ===== src/Usages/Schedule/Accepted.antt =====
-- What is accepted as a schedule holds values of its fields' ranges.
use aimebu.Prelude.{
  Text, bytes, text_eq, trim_space, leb, ◌==◌, Bool-cases, Option-cases, nat_eq, ℕ, ◌≡◌, refl,
  subst, inl, inr, Bool, true, false, ◌&&◌, some, List, [], ◌∷◌, arith,
}
use aimebu.Usages.Schedule.{
  schedule_of, parse_warmup_schedule, fields, specs, WarmupSchedule, parsed, CronValue, atoi_within,
  parse_field, parse_values,
}
use aimebu.Usages.Schedule.Printing.{is_valid, print_schedule, parse-print, in_range}

atoi_within-in_range :
    (low high n : ℕ) (text : Text)
    → atoi_within low high text ≡ some n
    → (leb low n && leb n high) ≡ true
unfolding atoi_within
atoi_within-in_range low high n [] h = ground arith
atoi_within-in_range low high n (c ∷ s) h = ground arith

parse_field-in_range :
    (low high : ℕ) (text : Text) (v : CronValue)
    → parse_field low high text ≡ some v
    → in_range low high v ≡ true
unfolding parse_field
parse_field-in_range low high text v h = elim (Bool-cases (text == bytes "*")) [
  | inl star ↦ ground arith
  | inr number ↦ elim (Option-cases (atoi_within low high text)) [
    | inl bad ↦ absurd (ground arith)
    | inr (n, read) ↦ let within = atoi_within-in_range low high n text read in ground arith
  ]
]

abbrev all_in : List (ℕ × ℕ) → List CronValue → Bool
all_in [] [] = true
all_in ((low, high) ∷ ss) (v ∷ vs) = in_range low high v && all_in ss vs
all_in [] (v ∷ vs) = false
all_in (s ∷ ss) [] = false

parse_values-all_in :
    (ss : List (ℕ × ℕ)) (ts : List Text) (vs : List CronValue)
    → parse_values ss ts ≡ some vs
    → all_in ss vs ≡ true
unfolding parse_values
parse_values-all_in [] [] [] h = refl
parse_values-all_in [] [] (v ∷ vs) h = absurd (ground arith)
parse_values-all_in [] (t ∷ ts) vs h = absurd (ground arith)
parse_values-all_in (s ∷ ss) [] vs h = absurd (ground arith)
parse_values-all_in ((low, high) ∷ ss) (t ∷ ts) vs h =
    elim (Option-cases (parse_field low high t)) [
      | inl bad ↦ absurd (ground arith)
      | inr (v, one_read) ↦ elim (Option-cases (parse_values ss ts)) [
        | inl bad ↦ absurd (ground arith)
        | inr (rest, others) ↦
            let whole : v ∷ rest ≡ vs = ground arith in
            subst (λ us. all_in ((low, high) ∷ ss) us ≡ true) whole
              (let within = parse_field-in_range low high t v one_read in
                let all = parse_values-all_in ss ts rest others in ground arith)
      ]
    ]

schedule_of-is_valid :
    (vs : List CronValue) (s : WarmupSchedule)
    → all_in specs vs ≡ true
    → schedule_of vs ≡ parsed s
    → is_valid s ≡ true
unfolding schedule_of
schedule_of-is_valid [] s h e = absurd (ground arith)
schedule_of-is_valid (a ∷ []) s h e = absurd (ground arith)
schedule_of-is_valid (a ∷ b ∷ []) s h e = absurd (ground arith)
schedule_of-is_valid (a ∷ b ∷ c ∷ []) s h e = absurd (ground arith)
schedule_of-is_valid (a ∷ b ∷ c ∷ d ∷ []) s h e = absurd (ground arith)
schedule_of-is_valid (a ∷ b ∷ c ∷ d ∷ v ∷ w ∷ vs) s h e = absurd (ground arith)
schedule_of-is_valid (a ∷ b ∷ c ∷ d ∷ v ∷ []) s h e = ground (arith, nat_eq.agrees v.value 7)

accepted :
    (raw : Text) (s : WarmupSchedule) → parse_warmup_schedule raw ≡ parsed s → is_valid s ≡ true
unfolding parse_warmup_schedule
accepted raw s h = elim (Option-cases (parse_values specs (fields (trim_space raw)))) [
  | inl bad ↦ absurd (ground arith)
  | inr (vs, read) ↦
      schedule_of-is_valid vs s (parse_values-all_in specs (fields (trim_space raw)) vs read)
        (ground arith)
]

-- A line that is accepted as a schedule gives values of the fields' ranges, 0 to 6 for the weekday,
-- and the same schedule again when that is printed.
pub parse_warmup_schedule-is_valid :
    (raw : Text) (s : WarmupSchedule)
    → parse_warmup_schedule raw ≡ parsed s
    → (is_valid s ≡ true) × (parse_warmup_schedule (print_schedule s) ≡ parsed s)
parse_warmup_schedule-is_valid raw s h =
    let valid = accepted raw s h in (valid, parse-print s valid)
