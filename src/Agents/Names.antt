-- ===== src/Agents/Names.antt =====
-- internal/server/names.go, and the rules for names of store.go and addressing.go.
use aimebu.Prelude.{
  take, length, drop, contains, Text, bytes, text_eq, to_lower, leb, if◌then◌else◌, ◌==◌, nat_eq, ℕ,
  Bool, false, ◌&&◌, ◌||◌, Option, none, some, List, [], ◌∷◌, ◌++◌,
}

-- namePool
pub name_pool : List Text
name_pool =
    bytes "alice"
    ∷ bytes "bob"
    ∷ bytes "carol"
    ∷ bytes "dave"
    ∷ bytes "eve"
    ∷ bytes "frank"
    ∷ bytes "grace"
    ∷ bytes "hugo"
    ∷ bytes "iris"
    ∷ bytes "jack"
    ∷ bytes "kate"
    ∷ bytes "leo"
    ∷ bytes "mia"
    ∷ bytes "nate"
    ∷ bytes "olive"
    ∷ bytes "pete"
    ∷ bytes "quinn"
    ∷ bytes "ruth"
    ∷ bytes "sam"
    ∷ bytes "tina"
    ∷ bytes "ulf"
    ∷ bytes "vera"
    ∷ bytes "will"
    ∷ bytes "xena"
    ∷ bytes "yara"
    ∷ bytes "zeke"
    ∷ bytes "amy"
    ∷ bytes "ben"
    ∷ bytes "cora"
    ∷ bytes "dan"
    ∷ bytes "ella"
    ∷ bytes "finn"
    ∷ bytes "gina"
    ∷ bytes "hal"
    ∷ bytes "ivy"
    ∷ bytes "jade"
    ∷ bytes "kai"
    ∷ bytes "lena"
    ∷ bytes "max"
    ∷ bytes "nora"
    ∷ bytes "otto"
    ∷ bytes "piper"
    ∷ bytes "rhea"
    ∷ bytes "seth"
    ∷ bytes "theo"
    ∷ bytes "una"
    ∷ bytes "vince"
    ∷ bytes "wren"
    ∷ bytes "xavi"
    ∷ bytes "yuki"
    ∷ bytes "zoe"
    ∷ bytes "arlo"
    ∷ bytes "beth"
    ∷ bytes "cleo"
    ∷ bytes "drew"
    ∷ bytes "elsa"
    ∷ bytes "felix"
    ∷ bytes "gus"
    ∷ bytes "hana"
    ∷ bytes "ian"
    ∷ bytes "june"
    ∷ bytes "kira"
    ∷ bytes "luna"
    ∷ bytes "milo"
    ∷ bytes "nina"
    ∷ bytes "owen"
    ∷ bytes "penny"
    ∷ bytes "rex"
    ∷ bytes "sage"
    ∷ bytes "tara"
    ∷ bytes "uma"
    ∷ bytes "vlad"
    ∷ bytes "wade"
    ∷ bytes "xio"
    ∷ bytes "yann"
    ∷ bytes "zane"
    ∷ bytes "ada"
    ∷ bytes "boris"
    ∷ bytes "cass"
    ∷ bytes "deon"
    ∷ bytes "emma"
    ∷ bytes "ford"
    ∷ bytes "gwen"
    ∷ bytes "hans"
    ∷ bytes "ines"
    ∷ bytes "jonas"
    ∷ bytes "kyra"
    ∷ bytes "lars"
    ∷ bytes "mona"
    ∷ bytes "nils"
    ∷ bytes "opal"
    ∷ bytes "pia"
    ∷ bytes "quin"
    ∷ bytes "remi"
    ∷ bytes "sven"
    ∷ bytes "tessa"
    ∷ bytes "umar"
    ∷ bytes "viv"
    ∷ bytes "wes"
    ∷ bytes "xan"
    ∷ bytes "yael"
    ∷ bytes "zeno"
    ∷ []

-- The first name that is not taken.
unfoldable pub first_free : (Text → Bool) → List Text → Option Text
first_free taken [] = none
first_free taken (n ∷ ns) = if taken n then first_free taken ns else some n

-- `start` is the random offset, below the pool's length.
unfoldable pub pick_random_name : ℕ → (Text → Bool) → List Text → Option Text
unfolding first_free
pick_random_name start taken pool = first_free taken (drop start pool ++ take start pool)

-- assembleID, for an AI agent.
unfoldable pub assemble_id : Text → Text → Text
assemble_id name project = if project == [] then name else name ++ (b'@' ∷ project)

abbrev is_lower : ℕ → Bool
is_lower c = leb b'a' c && leb c b'z'

abbrev is_digit : ℕ → Bool
is_digit c = leb b'0' c && leb c b'9'

abbrev is_interior : ℕ → Bool
is_interior c = is_lower c || is_digit c || c == b'_' || c == b'-'

-- What follows a slug's first letter: bytes of the interior, and a letter or digit at the end.
slug_tail : Text → Bool
slug_tail [] = false
slug_tail (c ∷ []) = is_lower c || is_digit c
slug_tail (c ∷ d ∷ t) = is_interior c && slug_tail (d ∷ t)

-- SlugPattern: ^[a-z][a-z0-9_-]{1,19}[a-z0-9]$
unfoldable pub is_slug : Text → Bool
unfolding slug_tail
is_slug [] = false
is_slug (c ∷ t) = is_lower c && slug_tail t && leb 2 (length t) && leb (length t) 20

unfoldable pub is_reserved_agent_name : Text → Bool
unfolding to_lower
is_reserved_agent_name name = contains (to_lower name) (
    bytes "human"
    ∷ bytes "humans"
    ∷ bytes "ai"
    ∷ bytes "ais"
    ∷ bytes "everyone"
    ∷ bytes "all"
    ∷ bytes "here"
    ∷ bytes "channel"
    ∷ bytes "system"
    ∷ bytes "_system"
    ∷ [])
