-- ===== src/Submission/Bounds.antt =====
-- The bounds that what a message carries keeps.
use aimebu.Prelude.{
  take, length, select, All, Text, same, text_eq, trim_space, ltb, if◌then◌else◌, ◌==◌, Bool-cases,
  nat_eq, ℕ, zero, suc, ◌+◌, ◌≤◌, ◌<◌, max, ◌≡◌, refl, subst, inl, inr, Bool, true, false, not,
  ◌&&◌, List, [], ◌∷◌, map, arith,
}
use aimebu.Types.{OpenQuestion, AppendixPage, Result, ok, err, ◌>>=◌}
use aimebu.Submission.{
  normalize_appendix_pages, is_usable, answers_up_to, pages_from, options_up_to, questions_up_to,
  clean_proposed_answers, rune_count, truncate_runes, clean_question, clean_open_questions,
}

answers_up_to-take :
    (room : ℕ) (answers : List Text)
    → answers_up_to room answers ≡ take room (select (λ t. not (t == [])) (map trim_space answers))
unfolding answers_up_to
answers_up_to-take zero answers = refl
answers_up_to-take (suc room) [] = refl
answers_up_to-take (suc room) (a ∷ answers) =
    ground (arith, answers_up_to-take (suc room) answers, answers_up_to-take room answers)

abbrev pub clean_option : Text → Text
clean_option o = truncate_runes (trim_space o) 500

options_up_to-take :
    (room : ℕ) (options : List Text)
    → options_up_to room options
      ≡ take room (select (λ t. not (t == [])) (map clean_option options))
unfolding options_up_to
options_up_to-take zero options = refl
options_up_to-take (suc room) [] = refl
options_up_to-take (suc room) (o ∷ options) =
    ground (arith, options_up_to-take (suc room) options, options_up_to-take room options)

questions_up_to-take :
    (room : ℕ) (qs : List OpenQuestion)
    → questions_up_to room qs ≡ take room (select is_usable (map clean_question qs))
unfolding questions_up_to
questions_up_to-take zero qs = refl
questions_up_to-take (suc room) [] = refl
questions_up_to-take (suc room) (q ∷ qs) =
    ground (arith, questions_up_to-take (suc room) qs, questions_up_to-take room qs)

-- The loops that stop early keep the first four answers that are not blank, trimmed; and the first
-- ten questions that have a text and two options or more, each with the first eight of its options
-- that are not blank.
pub clean-take :
    (answers : List Text) (qs : List OpenQuestion) (q : OpenQuestion)
    → (clean_proposed_answers answers
        ≡ take 4 (select (λ t. not (t == [])) (map trim_space answers)))
      × (clean_open_questions qs ≡ take 10 (select is_usable (map clean_question qs)))
      × ((clean_question q).options
          ≡ take 8 (select (λ t. not (t == [])) (map clean_option q.options)))
unfolding clean_proposed_answers clean_open_questions clean_question
clean-take answers qs q =
    (answers_up_to-take 4 answers, questions_up_to-take 10 qs, options_up_to-take 8 q.options)

abbrev pub body_bytes : List AppendixPage → ℕ
body_bytes [] = 0
body_bytes (p ∷ ps) = length p.body + body_bytes ps

-- What a page that is stored is like.
abbrev pub GoodPage : AppendixPage → Type 0
GoodPage p = (0 < length p.body) × (length p.body ≤ 32000) × (rune_count p.title ≤ 160)

-- What the loop gives after `total` bytes from `count` pages.
abbrev PagesFit : ℕ → ℕ → Result (List AppendixPage) → Type 0
PagesFit total count (err e) = Unit {0}
PagesFit total count (ok pages) =
    (length pages ≤ count) × (total + body_bytes pages ≤ max total 128000) × All GoodPage pages

filled_length : (t : Text) → (t == []) ≡ false → 0 < length t
unfolding same
filled_length [] h = absurd (ground arith)
filled_length (c ∷ t) h = omega arith

skip_page :
    (total count : ℕ) (r : Result (List AppendixPage))
    → PagesFit total count r
    → PagesFit total (suc count) r
skip_page total count (err e) f = tt
skip_page total count (ok pages) f = (omega (arith, f.0), f.1, f.2)

add_page :
    (total count : ℕ) (p : AppendixPage) (r : Result (List AppendixPage))
    → GoodPage p
    → total + length p.body ≤ 128000
    → PagesFit (total + length p.body) count r
    → PagesFit total (suc count) (r >>= λ pages. ok (p ∷ pages))
add_page total count p (err e) g l f = tt
add_page total count p (ok pages) g l f = (omega (arith, f.0), ground arith, (g, f.2))

by_if :
    {A : Type 0} (P : A → Type 0) (b : Bool) {x y : A}
    → (b ≡ true → P x)
    → (b ≡ false → P y)
    → P (if b then x else y)
by_if P true f g = f refl
by_if P false f g = g refl

pages_from-PagesFit :
    (total : ℕ) (pages : List AppendixPage) → PagesFit total (length pages) (pages_from total pages)
unfolding pages_from
pages_from-PagesFit total [] = (omega arith, ground arith, tt)
pages_from-PagesFit total (p ∷ ps) =
    let title = trim_space p.title in
    let body = trim_space p.body in
    let page : AppendixPage = record { title = title; body = body } in
    let fit = PagesFit total (suc (length ps)) in
    by_if fit (title == [] && body == [])
      (λ _. skip_page total (length ps) (pages_from total ps) (pages_from-PagesFit total ps))
      (λ _.
        by_if fit (body == []) (λ _. tt)
          (λ filled.
            by_if fit (ltb 160 (rune_count title)) (λ _. tt)
              (λ short.
                by_if fit (ltb 32000 (length body)) (λ _. tt)
                  (λ small.
                    by_if fit (ltb 128000 (total + length body)) (λ _. tt)
                      (λ fits.
                        add_page total (length ps) page (pages_from (total + length body) ps)
                          (filled_length body filled, ground arith, ground arith) (ground arith)
                          (pages_from-PagesFit (total + length body) ps))))))

-- Pages that are accepted are at most ten, of at most 128000 bytes in all; each has a body, of at
-- most 32000 bytes, and a title of at most 160 runes.
pub normalize_appendix_pages-fit :
    (given pages : List AppendixPage)
    → normalize_appendix_pages given ≡ ok pages
    → (length pages ≤ 10) × (body_bytes pages ≤ 128000) × All GoodPage pages
unfolding normalize_appendix_pages
normalize_appendix_pages-fit given pages h = elim (Bool-cases (ltb 10 (length given))) [
  | inl many ↦ absurd (ground arith)
  | inr few ↦
      let fit = subst (PagesFit 0 (length given)) (passed few) (pages_from-PagesFit 0 given) in
      (omega (arith, fit.0, at_most few), ground (arith, fit.1), fit.2)
]
  where
    passed : ltb 10 (length given) ≡ false → pages_from 0 given ≡ ok pages
    passed few = ground arith

    at_most : ltb 10 (length given) ≡ false → length given ≤ 10
    at_most few = ground arith
