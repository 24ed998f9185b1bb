-- ===== src/Prelude/Strings.antt =====
-- Go's strings as lists of bytes. Literals are ASCII.
use Prim.Native.Char.{code}
use Prim.Native.Nat.{ℕ, ◌+◌}
use Prim.Native.String.{String}
use mathlib.Core.Path.{◌≡◌, refl}
use mathlib.Core.Logic.{◌↔◌, ◌⊎◌}
use mathlib.Core.Bool.{Bool, true, false, ◌&&◌, ◌||◌}
use mathlib.Core.List.{List, [], ◌∷◌, reverse}
use native.Mathlib.Omega.{arith}
use aimebu.Prelude.Tests.{if◌then◌else◌, Eq, ltb, leb, nat_beq, nat_beq_iff}

abbrev pub Text : Type 0
Text = List ℕ

-- The bytes of an ASCII literal.
abbrev pub bytes : String → Text
bytes String.[] = []
bytes (String.◌∷◌ c s) = code c ∷ bytes s

unfoldable pub same : Text → Text → Bool
same [] [] = true
same [] (y ∷ t) = false
same (x ∷ s) [] = false
same (x ∷ s) (y ∷ t) = nat_beq x y && same s t

pub same_iff : (s t : Text) → (same s t ≡ true) ↔ (s ≡ t)
unfolding same
same_iff (x ∷ s) (y ∷ t) = ground (arith, nat_beq_iff x y, same_iff s t)
same_iff (x ∷ s) [] = ground arith
same_iff [] (y ∷ t) = ground arith
same_iff [] [] = ground arith

instance abbrev pub text_eq : Eq Text
text_eq = record { test = same; agrees = same_iff }

-- strings.HasPrefix
unfoldable pub has_prefix : Text → Text → Bool
has_prefix s [] = true
has_prefix [] (b ∷ p) = false
has_prefix (a ∷ s) (b ∷ p) = nat_beq a b && has_prefix s p

-- strings.IndexByte: whether a byte occurs, and what stands before it.
unfoldable pub has_byte : ℕ → Text → Bool
has_byte c [] = false
has_byte c (a ∷ s) = nat_beq a c || has_byte c s

unfoldable pub before_byte : ℕ → Text → Text
before_byte c [] = []
before_byte c (a ∷ s) = let rest = before_byte c s in if nat_beq a c then [] else a ∷ rest

-- The order of sort.Strings.
unfoldable pub text_ltb : Text → Text → Bool
text_ltb s [] = false
text_ltb [] (b ∷ t) = true
text_ltb (a ∷ s) (b ∷ t) = ltb a b || (nat_beq a b && text_ltb s t)

-- strings.TrimSpace, for the ASCII spaces.
unfoldable pub is_space : ℕ → Bool
is_space c = nat_beq c 32 || (leb 9 c && leb c 13)

unfoldable pub trim_left : Text → Text
unfolding is_space
trim_left [] = []
trim_left (c ∷ s) = let rest = trim_left s in if is_space c then rest else c ∷ s

unfoldable pub trim_space : Text → Text
unfolding trim_left
trim_space s = reverse (trim_left (reverse (trim_left s)))

-- strings.ToLower on ASCII letters; other bytes stay.
unfoldable pub lower_byte : ℕ → ℕ
lower_byte c = if leb b'A' c && leb c b'Z' then c + 32 else c

unfoldable pub to_lower : Text → Text
unfolding lower_byte
to_lower [] = []
to_lower (c ∷ s) = lower_byte c ∷ to_lower s

-- strings.EqualFold on ASCII letters.
unfoldable pub equal_fold : Text → Text → Bool
unfolding to_lower
equal_fold s t = same (to_lower s) (to_lower t)

pub to_lower_idem : (s : Text) → to_lower (to_lower s) ≡ to_lower s
unfolding to_lower
to_lower_idem [] = refl
to_lower_idem (c ∷ s) = ground (arith, to_lower_idem s)

pub text_ltb_total :
    (s t : Text) → (if text_ltb s t then text_ltb t s ≡ false else (text_ltb t s ≡ true) ⊎ (s ≡ t))
unfolding text_ltb
text_ltb_total [] [] = ground arith
text_ltb_total [] (b ∷ t) = ground arith
text_ltb_total (a ∷ s) [] = ground arith
text_ltb_total (a ∷ s) (b ∷ t) = ground (arith, text_ltb_total s t)
