-- ===== src/Usages/Refresher/Commit.antt =====
-- The commit of rotated credentials to the profiles that hold the spent token.
use aimebu.Prelude.{
  or_zero, contains, Text, same_iff, text_eq, ◌==◌, Bool-cases, Option-cases, nat_eq, ◌≡◌, refl,
  sym, ap, ◌∙◌, inl, inr, Bool, true, false, ◌&&◌, none, some, List, [], ◌∷◌, arith,
}
use aimebu.Usages.StateStore.{Tool, claude, codex, same_tool, key_of}
use aimebu.Usages.World.{Format, Profile}
use aimebu.Usages.Commits.{holds, is_pending, committed, unfinished}
use aimebu.Usages.Refresher.{}
use aimebu.Usages.Refresher.Follows.{carries, key_of-inj, Only}

-- The account of the token in a text, if it is that one.
unfoldable pub token_is : Format → Tool → Text → Text → Bool
token_is f tool account text = elim (f.token_hash tool text) [
  | none ↦ false
  | some h ↦ key_of tool h == account
]

-- No account of the list has the text's token.
abbrev pub Fresh : Format → Tool → Text → List Text → Type 0
Fresh f tool text spent = (a : Text) → contains a spent ≡ true → token_is f tool a text ≡ false

-- Logins with one access token have one refresh token.
abbrev pub Identifies : Format → Type 0
Identifies f =
    (tool : Tool) (x y : Text)
    → (f.access_token tool y == []) ≡ false
    → (f.access_token tool x == f.access_token tool y) ≡ true
    → f.token_hash tool x ≡ f.token_hash tool y

pub same_tool-eq : (a b : Tool) → same_tool a b ≡ true → a ≡ b
same_tool-eq claude claude h = refl
same_tool-eq codex codex h = refl
same_tool-eq claude codex h = cc
same_tool-eq codex claude h = cc

pub same_tool_refl : (a : Tool) → same_tool a a ≡ true
same_tool_refl claude = refl
same_tool_refl codex = refl

module _ (f : Format) where
  -- A profile carries a token exactly if it holds it.
  pub holds-carries :
      (tool : Tool) (hash : Text) (p : Profile)
      → holds f tool hash p ≡ true
      → carries f (key_of tool hash) p ≡ true
  unfolding holds carries
  holds-carries tool hash p h =
      let kind : p.tool ≡ tool = same_tool-eq p.tool tool (ground arith) in
      elim (Option-cases p.file) [
        | inl unread ↦ absurd (ground arith)
        | inr (text, read) ↦ elim (Option-cases (f.token_hash tool text)) [
          | inl without ↦ absurd (ground arith)
          | inr (x, given) ↦
              ground (arith, same_iff x hash, (same_iff (key_of tool x) (key_of tool hash)).1)
        ]
      ]

  pub carries-holds :
      (tool : Tool) (hash : Text) (p : Profile)
      → carries f (key_of tool hash) p ≡ true
      → holds f tool hash p ≡ true
  unfolding holds carries
  carries-holds tool hash p h = elim (Option-cases p.file) [
    | inl unread ↦ absurd (ground arith)
    | inr (text, read) ↦ elim (Option-cases (f.token_hash p.tool text)) [
      | inl without ↦ absurd (ground arith)
      | inr (x, given) ↦
          let own : (key_of p.tool x == key_of tool hash) ≡ true = ground arith in
          let (kind, same_hash) = key_of-inj p.tool tool x hash ((same_iff _ _).0 own) in
          let given' : f.token_hash tool text ≡ some x =
            ap (λ (t : Tool). f.token_hash t text) (sym kind) ∙ given in
          let of_kind : same_tool p.tool tool ≡ true =
            ap (λ (t : Tool). same_tool t tool) kind ∙ same_tool_refl tool in
          ground (arith, same_iff x hash)
    ]
  ]

  -- A profile with a fresh login no longer carries a spent token.
  replaced :
      (tool : Tool) (hash text account : Text) (p : Profile)
      → token_is f tool account text ≡ false
      → is_pending f tool hash text p ≡ true
      → carries f account (record p { file = some text }) ≡ true
      → ⊥
  unfolding token_is is_pending carries
  replaced tool hash text account p fresh pending carried =
      let kind : p.tool ≡ tool = same_tool-eq p.tool tool (ground arith) in ground arith

  still_there :
      (tool : Tool) (hash text : Text) (p : Profile)
      → Identifies f
      → token_is f tool (key_of tool hash) text ≡ false
      → is_pending f tool hash text p ≡ false
      → holds f tool hash p ≡ true
      → ⊥
  unfolding token_is is_pending
  still_there tool hash text p law fresh done held = elim (Option-cases p.file) [
    | inl unread ↦ absurd (ground arith)
    | inr (old, read) ↦
        let known : or_zero p.file [] ≡ old = ground arith in
        let same_access : (f.access_token tool old == f.access_token tool text) ≡ true =
          ground arith in
        let same_hash = law tool old text (ground arith) same_access in
        elim (Option-cases (f.token_hash tool text)) [
          | inl without ↦ absurd (ground arith)
          | inr (x, given) ↦
              let own : x ≡ hash = ground (arith, same_iff x hash) in
              ground (arith, (same_iff (key_of tool x) (key_of tool hash)).1)
        ]
  ]

  pub committed-Only :
      (tool : Tool) (hash text account : Text) (commits : Text → Bool) (P : Tool → Text → Type 0)
      (ps : List Profile)
      → token_is f tool account text ≡ false
      → Only f account P ps
      → Only f account P (committed f tool hash text commits ps)
  unfolding committed
  committed-Only tool hash text account commits P [] fresh h = tt
  committed-Only tool hash text account commits P (p ∷ ps) fresh h =
      elim (Bool-cases (is_pending f tool hash text p && commits p.name)) [
        | inl hit ↦ rw hit (
          (λ carried. absurd (replaced tool hash text account p fresh (ground arith) carried)),
          committed-Only tool hash text account commits P ps fresh h.1,
        )
        | inr miss ↦ rw miss (h.0, committed-Only tool hash text account commits P ps fresh h.1)
      ]

  -- Once no holder is left that waits for the commit, no profile carries the spent token.
  pub finished-none :
      (tool : Tool) (hash text : Text) (ps : List Profile)
      → Identifies f
      → token_is f tool (key_of tool hash) text ≡ false
      → unfinished f tool hash text ps ≡ false
      → Only f (key_of tool hash) (λ _ _. ⊥) ps
  unfolding unfinished
  finished-none tool hash text [] law fresh done = tt
  finished-none tool hash text (p ∷ ps) law fresh done = (
    (λ carried.
        still_there tool hash text p law fresh (ground arith) (carries-holds tool hash p carried)),
    finished-none tool hash text ps law fresh (ground arith),
  )
