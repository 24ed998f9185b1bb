-- ===== src/Prelude/Sets.antt =====
-- Lists used as sets: membership by a scan, removal of the first match, no repeats.
use mathlib.Core.Path.{◌≡◌, refl, subst, ◌∙◌}
use mathlib.Core.Logic.{◌≢◌, inl, inr}
use mathlib.Core.Bool.{true, Bool, false, not, ◌&&◌, ◌||◌}
use mathlib.Core.List.{List, [], ◌∷◌, ◌++◌}
use native.Mathlib.Omega.{arith}
use aimebu.Prelude.Tests.{if◌then◌else◌, Eq, ◌==◌, Bool-cases}
use aimebu.Prelude.Lists.{select}

module _ {ℓ} {A : Type ℓ} ⦃e : Eq A⦄ where
  -- `for _, m := range xs { if m == a { return true } }`
  unfoldable pub contains : A → List A → Bool
  contains a [] = false
  contains a (x ∷ xs) = x == a || contains a xs

  -- `xs = append(xs[:i], xs[i+1:]...)` at the first i with xs[i] == a.
  unfoldable pub remove_first : A → List A → List A
  remove_first a [] = []
  remove_first a (x ∷ xs) = let rest = remove_first a xs in if x == a then xs else x ∷ rest

  abbrev pub Distinct : List A → Type 0
  Distinct [] = Unit {0}
  Distinct (x ∷ xs) = (contains x xs ≡ false) × Distinct xs

  pub contains-append :
      (a : A) (xs ys : List A) → contains a (xs ++ ys) ≡ (contains a xs || contains a ys)
  unfolding contains
  contains-append a [] ys = refl
  contains-append a (x ∷ xs) ys = ground (arith, contains-append a xs ys)

  pub contains-snoc :
      (a x : A) (xs : List A) → contains a (xs ++ x ∷ []) ≡ (contains a xs || x == a)
  unfolding contains
  contains-snoc a x xs = ground (arith, contains-append a xs (x ∷ []))

  pub contains-remove_first :
      (a b : A) (xs : List A) → a ≢ b → contains b (remove_first a xs) ≡ contains b xs
  unfolding contains remove_first
  contains-remove_first a b [] h = refl
  contains-remove_first a b (x ∷ xs) h =
      ground (arith, e.agrees x a, e.agrees x b, contains-remove_first a b xs h)

  -- Removal takes no element in.
  pub contains-remove_first-le :
      (a b : A) (xs : List A) → contains b xs ≡ false → contains b (remove_first a xs) ≡ false
  unfolding contains remove_first
  contains-remove_first-le a b [] h = refl
  contains-remove_first-le a b (x ∷ xs) h = ground (arith, contains-remove_first-le a b xs)

  pub contains-remove_first_self :
      (a : A) (xs : List A) → Distinct xs → contains a (remove_first a xs) ≡ false
  unfolding contains remove_first
  contains-remove_first_self a [] h = refl
  contains-remove_first_self a (x ∷ xs) h =
      ground (arith, e.agrees x a, contains-remove_first_self a xs h.1)

  pub remove_first-Distinct : (a : A) (xs : List A) → Distinct xs → Distinct (remove_first a xs)
  unfolding remove_first
  remove_first-Distinct a [] h = tt
  remove_first-Distinct a (x ∷ xs) h =
      ground (arith, contains-remove_first-le a x xs, remove_first-Distinct a xs h.1)

  pub snoc-Distinct :
      (a : A) (xs : List A) → Distinct xs → contains a xs ≡ false → Distinct (xs ++ a ∷ [])
  unfolding contains
  snoc-Distinct a [] d h = ground arith
  snoc-Distinct a (x ∷ xs) d h =
      ground (arith, contains-snoc x a xs, snoc-Distinct a xs d.1, e.agrees a x, e.agrees x a)

  pub contains-select :
      (p : A → Bool) (a : A) (xs : List A)
      → contains a (select p xs) ≡ (if p a then contains a xs else false)
  unfolding contains
  contains-select p a [] = ground arith
  contains-select p a (x ∷ xs) = ground (arith, e.agrees x a, contains-select p a xs)

  pub select-Distinct : (p : A → Bool) (xs : List A) → Distinct xs → Distinct (select p xs)
  select-Distinct p [] h = tt
  select-Distinct p (x ∷ xs) h = ground (arith, contains-select p x xs, select-Distinct p xs h.1)

  -- Of a list without repeats, exactly the removed element goes.
  pub contains-remove_first_lem :
      (a b : A) (xs : List A)
      → Distinct xs
      → contains b (remove_first a xs) ≡ (contains b xs && not (a == b))
  contains-remove_first_lem a b xs d = elim (Bool-cases (a == b)) [
    | inl hit ↦
        subst (λ c. contains c (remove_first a xs) ≡ (contains c xs && not (a == c)))
          ((e.agrees a b).0 hit) (self (contains a xs))
    | inr miss ↦ contains-remove_first a b xs (λ p. cc ((e.agrees a b).1 p)) ∙ other miss
  ]
    where
      self : (c : Bool) → contains a (remove_first a xs) ≡ (c && not (a == a))
      self c = contains-remove_first_self a xs d ∙ ground (arith, (e.agrees a a).1 refl)

      other : (a == b) ≡ false → contains b xs ≡ (contains b xs && not (a == b))
      other m = ground arith

  pub select-nil :
      (p : A → Bool) (xs : List A)
      → ((a : A) → contains a xs ≡ true → p a ≡ false)
      → select p xs ≡ []
  unfolding contains
  select-nil p [] h = refl
  select-nil p (x ∷ xs) h =
      ground (arith, h x, (e.agrees x x).1 refl, select-nil p xs (λ a m. h a (ground arith)))
