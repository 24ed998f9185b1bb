-- ===== src/Usages/Schedule/Printing.antt =====
-- Schedules are read back from how they are printed.
use mathlib.Core.List.{reverse-reverse, reverse-append, append_assoc}
use aimebu.Prelude.{
  Text, bytes, same, text_eq, is_space, trim_left, trim_space, ltb, leb, if◌then◌else◌, ◌==◌,
  Bool-cases, Option-cases, nat_eq, ℕ, zero, suc, ◌+◌, ◌/◌, ◌%◌, ◌<◌, ◌≡◌, refl, sym, ap, ◌∙◌, inl,
  inr, Bool, true, false, not, ◌&&◌, ◌||◌, none, some, List, [], ◌∷◌, ◌++◌, reverse, append_assoc,
  reverse-append, arith,
}
use aimebu.Usages.Schedule.{
  parsed, schedule_of, parse_warmup_schedule, specs, sunday, parse_values, add_word, split_words,
  parse_field, fields, CronValue, WarmupSchedule,
}

-- How a number below a hundred, a field and a schedule are written in a crontab.
abbrev pub two_digits : ℕ → Text
two_digits n = if ltb n 10 then (48 + n) ∷ [] else (48 + n / 10) ∷ (48 + n % 10) ∷ []

abbrev pub print_value : CronValue → Text
print_value v = if v.is_any then bytes "*" else two_digits v.value

abbrev pub print_schedule : WarmupSchedule → Text
print_schedule s =
    print_value s.minute
    ++ (32
        ∷ (print_value s.hour
            ++ (32
                ∷ (print_value s.day_of_month
                    ++ (32 ∷ (print_value s.month ++ (32 ∷ print_value s.day_of_week)))))))

-- A value that a field may hold; a * carries no number.
abbrev pub in_range : ℕ → ℕ → CronValue → Bool
in_range low high v = if v.is_any then v.value == 0 else leb low v.value && leb v.value high

abbrev pub is_valid : WarmupSchedule → Bool
is_valid s =
    in_range 0 59 s.minute
    && (in_range 0 23 s.hour
        && (in_range 1 31 s.day_of_month && (in_range 1 12 s.month && in_range 0 6 s.day_of_week)))

abbrev solid : Text → Bool
solid [] = true
solid (c ∷ s) = not (is_space c) && solid s

-- A word: not empty, and without spaces.
abbrev is_word : Text → Bool
is_word w = not (w == []) && solid w

abbrev all_below : ℕ → (ℕ → Bool) → Bool
all_below zero p = true
all_below (suc n) p = p n && all_below n p

below : (n k : ℕ) (p : ℕ → Bool) → all_below n p ≡ true → k < n → p k ≡ true
below zero k p h lt = absurd (omega arith)
below (suc n) k p h lt = elim (Bool-cases (k == n)) [
  | inl hit ↦ let last : k ≡ n = (nat_eq.agrees k n).0 hit in rw last (ground arith)
  | inr miss ↦ below n k p (ground arith) (ground (arith, nat_eq.agrees k n))
]

two_digits_words : all_below 60 (λ n. is_word (two_digits n)) ≡ true
unfolding is_space same
two_digits_words = refl

two_digits_reversed : all_below 60 (λ n. is_word (reverse (two_digits n))) ≡ true
unfolding is_space same
two_digits_reversed = refl

abbrev reads : ℕ → ℕ → ℕ → Bool
reads low high n = not (leb low n && leb n high) || (elim (parse_field low high (two_digits n)) [
  | none ↦ false
  | some v ↦ not v.is_any && v.value == n
])

record_same : (u v : CronValue) → u.is_any ≡ v.is_any → u.value ≡ v.value → u ≡ v
record_same u v p q =
    ap (λ b. record { is_any = b; value = u.value }) p
    ∙ ap (λ n. record { is_any = v.is_any; value = n }) q

star :
    (low high : ℕ) (v : CronValue)
    → v.is_any ≡ true
    → v.value ≡ 0
    → parse_field low high (print_value v) ≡ some v
unfolding parse_field same
star low high v any_value zero_value =
    rw any_value (ap some (ap (λ n. record { is_any = true; value = n }) (sym zero_value)))

module _ (low high : ℕ) (v : CronValue) (small : high < 60) (h : in_range low high v ≡ true) where
  value-small : v.value < 60
  value-small = ground arith

  parse_field-print :
      all_below 60 (reads low high) ≡ true → parse_field low high (print_value v) ≡ some v
  parse_field-print all = elim (Bool-cases v.is_any) [
    | inl any_value ↦
        let zero_value : v.value ≡ 0 = ground (arith, nat_eq.agrees v.value 0) in
        star low high v any_value zero_value
    | inr number ↦
        let one_read = below 60 v.value (reads low high) all value-small in
        elim (Option-cases (parse_field low high (two_digits v.value))) [
          | inl lost ↦ absurd (ground arith)
          | inr (u, found) ↦
              let same_any : u.is_any ≡ false = ground arith in
              let same_value : u.value ≡ v.value = ground (arith, nat_eq.agrees u.value v.value) in
              rw number found ∙ ap some (record_same u v (same_any ∙ sym number) same_value)
        ]
  ]

  print_value-is_word : is_word (print_value v) ≡ true
  unfolding is_space same
  print_value-is_word = elim (Bool-cases v.is_any) [
    | inl any_value ↦ rw any_value refl
    | inr number ↦
        rw number (below 60 v.value (λ n. is_word (two_digits n)) two_digits_words value-small)
  ]

  print_value-reversed : is_word (reverse (print_value v)) ≡ true
  unfolding is_space same
  print_value-reversed = elim (Bool-cases v.is_any) [
    | inl any_value ↦ rw any_value refl
    | inr number ↦
        rw number
          (below 60 v.value (λ n. is_word (reverse (two_digits n))) two_digits_reversed value-small)
  ]

split-word : (w s : Text) → solid w ≡ true → split_words (w ++ (32 ∷ s)) ≡ (w, fields s)
unfolding split_words fields is_space
split-word [] s h = refl
split-word (c ∷ w) s h = rw (split-word w s (ground arith)) (ground arith)

split-end : (w : Text) → solid w ≡ true → split_words w ≡ (w, [])
unfolding split_words
split-end [] h = refl
split-end (c ∷ w) h = rw (split-end w (ground arith)) (ground arith)

fields-word : (w s : Text) → is_word w ≡ true → fields (w ++ (32 ∷ s)) ≡ w ∷ fields s
unfolding fields add_word same
fields-word [] s h = absurd (ground arith)
fields-word (c ∷ w) s h = rw (split-word (c ∷ w) s (ground arith)) refl

fields-end : (w : Text) → is_word w ≡ true → fields w ≡ w ∷ []
unfolding fields add_word same
fields-end [] h = absurd (ground arith)
fields-end (c ∷ w) h = rw (split-end (c ∷ w) (ground arith)) refl

trim_left-word : (w s : Text) → is_word w ≡ true → trim_left (w ++ s) ≡ w ++ s
unfolding trim_left same
trim_left-word [] s h = absurd (ground arith)
trim_left-word (c ∷ w) s h = ground arith

trim_space-words :
    (u m m' v : Text)
    → u ++ m ≡ m' ++ v
    → is_word u ≡ true
    → is_word (reverse v) ≡ true
    → trim_space (u ++ m) ≡ u ++ m
unfolding trim_space
trim_space-words u m m' v e first last =
    let back : reverse (u ++ m) ≡ reverse v ++ reverse m' = ap reverse e ∙ reverse-append m' v in
    rw (trim_left-word u m first, back, trim_left-word (reverse v) (reverse m') last)
      (ap reverse (sym back) ∙ reverse-reverse (u ++ m))

-- The last field of a printed schedule, and what stands before it.
joined :
    (a b c d e : Text)
    → a ++ (32 ∷ (b ++ (32 ∷ (c ++ (32 ∷ (d ++ (32 ∷ e)))))))
      ≡ (a ++ (32 ∷ (b ++ (32 ∷ (c ++ (32 ∷ (d ++ (32 ∷ [])))))))) ++ e
joined a b c d e = sym (
    append_assoc a _ e
    ∙ ap (λ s. a ++ (32 ∷ s))
        (append_assoc b _ e
          ∙ ap (λ s. b ++ (32 ∷ s))
              (append_assoc c _ e ∙ ap (λ s. c ++ (32 ∷ s)) (append_assoc d (32 ∷ []) e))))

sunday-id : (v : CronValue) → in_range 0 6 v ≡ true → sunday v ≡ v
sunday-id v h = elim (Bool-cases (not v.is_any && v.value == 7)) [
  | inl seven ↦ absurd (ground (arith, nat_eq.agrees v.value 7))
  | inr other ↦ simp other refl
]

in_range-wider : (v : CronValue) → in_range 0 6 v ≡ true → in_range 0 7 v ≡ true
in_range-wider v h = ground arith

tables :
    (all_below 60 (reads 0 59) ≡ true)
    × (all_below 60 (reads 0 23) ≡ true)
    × (all_below 60 (reads 1 31) ≡ true)
    × (all_below 60 (reads 1 12) ≡ true)
    × (all_below 60 (reads 0 7) ≡ true)
unfolding parse_field same
tables = (refl, refl, refl, refl, refl)

parse_values-cons :
    (low high : ℕ) (t : Text) (v : CronValue) (ss : List (ℕ × ℕ)) (ts : List Text)
    (vs : List CronValue)
    → parse_field low high t ≡ some v
    → parse_values ss ts ≡ some vs
    → parse_values ((low, high) ∷ ss) (t ∷ ts) ≡ some (v ∷ vs)
unfolding parse_values
parse_values-cons low high t v ss ts vs p q = rw (p, q, parse_values) refl

module _ (s : WarmupSchedule) (valid : is_valid s ≡ true) where
  fields-print :
      fields (print_schedule s)
      ≡ print_value s.minute
        ∷ print_value s.hour
        ∷ print_value s.day_of_month
        ∷ print_value s.month
        ∷ print_value s.day_of_week
        ∷ []
  fields-print =
      fields-word (print_value s.minute) _
        (print_value-is_word 0 59 s.minute (omega arith) (ground arith))
      ∙ ap (λ ws. print_value s.minute ∷ ws)
          (fields-word (print_value s.hour) _
              (print_value-is_word 0 23 s.hour (omega arith) (ground arith))
            ∙ ap (λ ws. print_value s.hour ∷ ws)
                (fields-word (print_value s.day_of_month) _
                    (print_value-is_word 1 31 s.day_of_month (omega arith) (ground arith))
                  ∙ ap (λ ws. print_value s.day_of_month ∷ ws)
                      (fields-word (print_value s.month) _
                          (print_value-is_word 1 12 s.month (omega arith) (ground arith))
                        ∙ ap (λ ws. print_value s.month ∷ ws)
                            (fields-end (print_value s.day_of_week) (
                              print_value-is_word 0 6 s.day_of_week (omega arith)
                                (ground arith))))))

  trim_space-print : trim_space (print_schedule s) ≡ print_schedule s
  trim_space-print =
      trim_space-words (print_value s.minute) _ _ (print_value s.day_of_week)
        (joined (print_value s.minute) (print_value s.hour) (print_value s.day_of_month)
          (print_value s.month) (print_value s.day_of_week))
        (print_value-is_word 0 59 s.minute (omega arith) (ground arith))
        (print_value-reversed 0 6 s.day_of_week (omega arith) (ground arith))

  all_fields_read :
      parse_values specs (
        print_value s.minute
        ∷ print_value s.hour
        ∷ print_value s.day_of_month
        ∷ print_value s.month
        ∷ print_value s.day_of_week
        ∷ [])
      ≡ some (s.minute ∷ s.hour ∷ s.day_of_month ∷ s.month ∷ s.day_of_week ∷ [])
  unfolding parse_values
  all_fields_read =
      parse_values-cons 0 59 _ s.minute ((0, 23) ∷ (1, 31) ∷ (1, 12) ∷ (0, 7) ∷ [])
        (print_value s.hour
          ∷ print_value s.day_of_month
          ∷ print_value s.month
          ∷ print_value s.day_of_week
          ∷ [])
        _ (parse_field-print 0 59 s.minute (omega arith) (ground arith) tables.0)
        (parse_values-cons 0 23 _ s.hour ((1, 31) ∷ (1, 12) ∷ (0, 7) ∷ [])
          (print_value s.day_of_month ∷ print_value s.month ∷ print_value s.day_of_week ∷ []) _
          (parse_field-print 0 23 s.hour (omega arith) (ground arith) tables.1)
          (parse_values-cons 1 31 _ s.day_of_month ((1, 12) ∷ (0, 7) ∷ [])
            (print_value s.month ∷ print_value s.day_of_week ∷ []) _
            (parse_field-print 1 31 s.day_of_month (omega arith) (ground arith) tables.2)
            (parse_values-cons 1 12 _ s.month ((0, 7) ∷ []) (print_value s.day_of_week ∷ []) _
              (parse_field-print 1 12 s.month (omega arith) (ground arith) tables.3)
              (parse_values-cons 0 7 _ s.day_of_week [] [] []
                (parse_field-print 0 7 s.day_of_week (omega arith)
                  (in_range-wider s.day_of_week (ground arith)) tables.4)
                refl))))

  unset_not : (print_schedule s == []) ≡ false
  unfolding same
  unset_not = elim (Bool-cases s.minute.is_any) [
    | inl any_value ↦ rw any_value refl
    | inr number ↦ rw number (ground arith)
  ]

  -- A schedule whose fields hold values of their ranges, 0 to 6 for the weekday, is read back from
  -- its line in a crontab.
  pub parse-print : parse_warmup_schedule (print_schedule s) ≡ parsed s
  unfolding parse_warmup_schedule schedule_of
  parse-print =
      simp
        (
          trim_space-print,
          unset_not,
          fields-print,
          all_fields_read,
          sunday-id s.day_of_week (ground arith),
          parse_warmup_schedule,
          schedule_of,
        )
        refl
