-- ===== src/Usages/Refresher/Gap.antt =====
-- After a commit its profiles are left alone for half an hour.
use aimebu.Usages.Refresher.{at_point, drop_file, is_due, refresh_account, refresh_profile}
use aimebu.Prelude.{
  length, Map, is_some, or_zero, lookup, insert, lookup-insert, contains, Text, same_iff, text_eq,
  leb, if◌then◌else◌, ◌==◌, Bool-cases, nat_eq, ℕ, ◌+◌, ◌≤◌, ◌<◌, ◌≡◌, refl, ap, ◌∙◌, ◌⊎◌, inl, inr,
  Bool, true, false, not, ◌&&◌, ◌||◌, Option, none, some, List, [], ◌∷◌, arith,
}
use aimebu.Usages.StateStore.{Tool, rotated, JournalEntry, key_of, set_journal}
use aimebu.Usages.Rotation.{refresh_min_gap, LastRotation, target_profile_due, effective_lead}
use aimebu.Usages.World.{Format, Profile, World, Settings, at_point, Run, change, drop_file}
use aimebu.Usages.Commits.{
  committed, reached, unfinished, noted, end_commit, finish_commit, commit_rotated,
}
use aimebu.Usages.Rotation.Gaps.{due-gap}

abbrev rotation_at : ℕ → ℕ → Text → LastRotation
rotation_at now e h = record { at = now; expires_at = e; token_hash = h }

module _ (f : Format) (tool : Tool) (fresh : Text) (now e : ℕ) (h : Text)
    (expires : f.expires tool fresh ≡ some e) (hashed : f.token_hash tool fresh ≡ some h) where
  -- What the notes of a rotation do to the last rotations.
  noted_one : Text → World → World
  noted_one name w = record w {
    last = insert (key_of tool name) (rotation_at now e h) w.last;
    fanned_out = (key_of tool name, fresh) ∷ w.fanned_out;
  }

  noted-cons :
      (name : Text) (names : List Text) (w : World)
      → noted f tool fresh now (name ∷ names) w ≡ noted f tool fresh now names (noted_one name w)
  unfolding noted noted_one
  noted-cons name names w =
      ap
        (λ (last : Map Text LastRotation).
          noted f tool fresh now names
            (record w { last = last; fanned_out = (key_of tool name, fresh) ∷ w.fanned_out }))
        (rw (expires, hashed) refl)

  lookup-noted_one :
      (k name : Text) (w : World)
      → lookup k (noted_one name w).last
        ≡ (if key_of tool name == k then some (rotation_at now e h) else lookup k w.last)
  unfolding noted_one
  lookup-noted_one k name w = lookup-insert (key_of tool name) k (rotation_at now e h) w.last

  noted-kept :
      (k : Text) (names : List Text) (w : World)
      → lookup k w.last ≡ some (rotation_at now e h)
      → lookup k (noted f tool fresh now names w).last ≡ some (rotation_at now e h)
  unfolding noted
  noted-kept k [] w there = there
  noted-kept k (name ∷ names) w there =
      let next : lookup k (noted_one name w).last ≡ some (rotation_at now e h) =
        lookup-noted_one k name w ∙ (ground arith) in
      ap (λ (u : World). lookup k u.last) (noted-cons name names w)
      ∙ noted-kept k names (noted_one name w) next

  noted-reached :
      (name : Text) (names : List Text) (w : World)
      → contains name names ≡ true
      → lookup (key_of tool name) (noted f tool fresh now names w).last ≡ some (rotation_at now e h)
  unfolding noted contains
  noted-reached name [] w has = absurd (ground arith)
  noted-reached name (n ∷ names) w has =
      ap (λ (u : World). lookup (key_of tool name) u.last) (noted-cons n names w)
      ∙ elim (Bool-cases (n == name)) [
        | inl hit ↦ noted-kept (key_of tool name) names (noted_one n w) (
            lookup-noted_one (key_of tool name) n w
            ∙ rw
                ((same_iff (key_of tool n) (key_of tool name)).1
                  (ap (key_of tool) ((same_iff n name).0 hit)))
                refl)
        | inr miss ↦ noted-reached name names (noted_one n w) (ground arith)
      ]

module _ (f : Format) (set : Settings) (holds_lock : Bool) (q : Profile) (later : Run) (u : World)
    (text : Text) (l : LastRotation) (there : lookup (key_of q.tool q.name) u.last ≡ some l)
    (file : q.file ≡ some text) (hashed : f.token_hash q.tool text ≡ some l.token_hash)
    (expires : f.expires q.tool text ≡ some l.expires_at)
    (clock : (l.at ≤ later.now) ⊎ (l.at + refresh_min_gap < l.expires_at))
    (early : later.now < l.at + refresh_min_gap) where
  gate : Option LastRotation → Option ℕ → Bool
  gate last end =
      let (lead, too_soon) = effective_lead (set.lead q.tool) last l.token_hash later.now in
      not too_soon && target_profile_due end later.now lead

  gate_closed : gate (lookup (key_of q.tool q.name) u.last) (f.expires q.tool text) ≡ false
  unfolding gate
  gate_closed =
      ap (λ o. gate o (f.expires q.tool text)) there
      ∙ (ap (gate (some l)) expires ∙ elim (Bool-cases (gate (some l) (some l.expires_at))) [
        | inl due ↦ absurd (
            let late = due-gap (set.lead q.tool) l later.now clock due in
            omega (arith, late, early))
        | inr closed ↦ closed
      ])

  not_due : is_due f set q text l.token_hash later u ≡ false
  unfolding is_due gate
  not_due = let closed = gate_closed in ground arith

  early_account : refresh_account f set holds_lock q text l.token_hash later u ≡ u
  unfolding refresh_account
  early_account = let closed = not_due in ground arith

  refresh_profile-early : refresh_profile f set holds_lock q later u ≡ u
  unfolding refresh_profile
  refresh_profile-early = simp (file, hashed, refresh_profile) early_account

kept-last :
    (keep : Bool) (path : Text) (w : World) → (if keep then w else drop_file path w).last ≡ w.last
unfolding drop_file
kept-last true path w = refl
kept-last false path w = ground arith

module _ (f : Format) (run : Run) (hash name : Text) (e : ℕ) (h : Text) where
  end_commit-last :
      (tool : Tool) (journaled rescue : Text) (names : List Text) (w : World)
      → f.expires tool run.cli.left ≡ some e
      → f.token_hash tool run.cli.left ≡ some h
      → contains name names ≡ true
      → lookup
          (key_of tool name)
          (end_commit f tool journaled hash rescue run.cli.left run names w).last
        ≡ some (rotation_at run.now e h)
  unfolding end_commit contains
  end_commit-last tool journaled rescue [] w expires hashed has = absurd (ground arith)
  end_commit-last tool journaled rescue (n ∷ ns) w expires hashed has =
      let some_names : leb (length (n ∷ ns)) 0 ≡ false = ground arith in
      rw some_names
        (noted-reached f tool run.cli.left run.now e h expires hashed name (n ∷ ns) _ has)

  finish_commit-last :
      (tool : Tool) (journaled rescue : Text) (w : World)
      → f.expires tool run.cli.left ≡ some e
      → f.token_hash tool run.cli.left ≡ some h
      → unfinished f tool hash run.cli.left
          (committed f tool hash run.cli.left run.commits w.profiles)
        ≡ false
      → contains name (reached f tool hash run.cli.left run.commits w.profiles) ≡ true
      → lookup
          (key_of tool name)
          (finish_commit f tool journaled hash rescue run.cli.left run w).last
        ≡ some (rotation_at run.now e h)
  unfolding finish_commit
  finish_commit-last tool journaled rescue w expires hashed finished has =
      let done = record w {
        profiles = committed f tool hash run.cli.left run.commits w.profiles;
      } in
      rw finished (
        end_commit-last tool journaled rescue
          (reached f tool hash run.cli.left run.commits w.profiles) done expires hashed has)

  commit_rotated-last :
      (p : Profile) (w : World)
      → f.expires p.tool run.cli.left ≡ some e
      → f.token_hash p.tool run.cli.left ≡ some h
      → (at_point run.crash == 4) ≡ false
      → unfinished f p.tool hash run.cli.left
          (committed f p.tool hash run.cli.left run.commits w.profiles)
        ≡ false
      → contains name (reached f p.tool hash run.cli.left run.commits w.profiles) ≡ true
      → lookup (key_of p.tool name) (commit_rotated f p hash run w).last
        ≡ some (rotation_at run.now e h)
  unfolding commit_rotated
  commit_rotated-last p w expires hashed alive finished has =
      let held = record w {
        files = elim run.rescue [ none ↦ w.files | some path ↦ insert path run.cli.left w.files ];
        pending = insert (key_of p.tool hash) run.cli.left w.pending;
      } in
      let entry : JournalEntry = record {
        tool = p.tool;
        name = p.name;
        phase = rotated;
        spent_hash = hash;
        rescue = or_zero run.rescue [];
        temp_dir = if is_some run.rescue then [] else or_zero run.temp_dir [];
        started_at = run.now;
      } in
      let journaled = change run.saves.on_rotate (set_journal entry) held in
      let after =
        finish_commit f p.tool p.name hash (or_zero run.rescue []) run.cli.left run journaled in
      let kept_copy =
        (not (is_some run.rescue) || not run.saves.on_rotate)
        && is_some (lookup (key_of p.tool hash) after.pending) in
      rw alive (
        ap (λ last. lookup (key_of p.tool name) last)
          (kept-last kept_copy (or_zero run.temp_dir []) after)
        ∙ finish_commit-last p.tool p.name (or_zero run.rescue []) journaled expires hashed finished
            has)

-- After a commit by `run` that left no holder behind and in which the process did not die, the profiles
-- that it reached are left alone for half an hour: a refresh of such a profile, whose file still is
-- what `run` stored, does nothing at all, whatever its settings and lead and whatever else happened
-- to the world, as long as the last rotations are those after the commit. The new login's expiry and
-- token must be readable. The clock must not be before `run`, or the login must live for longer
-- than half an hour.
pub refresh_profile-gap :
    (f : Format) (set : Settings) (holds_lock : Bool) (p q : Profile) (hash : Text)
    (run later : Run) (w u : World) (e : ℕ) (h : Text)
    → (at_point run.crash == 4) ≡ false
    → unfinished f p.tool hash run.cli.left
        (committed f p.tool hash run.cli.left run.commits w.profiles)
      ≡ false
    → contains q.name (reached f p.tool hash run.cli.left run.commits w.profiles) ≡ true
    → f.expires p.tool run.cli.left ≡ some e
    → f.token_hash p.tool run.cli.left ≡ some h
    → q.tool ≡ p.tool
    → q.file ≡ some run.cli.left
    → u.last ≡ (commit_rotated f p hash run w).last
    → (run.now ≤ later.now) ⊎ (run.now + refresh_min_gap < e)
    → later.now < run.now + refresh_min_gap
    → refresh_profile f set holds_lock q later u ≡ u
refresh_profile-gap f set holds_lock p q hash run later w u e h alive finished has expires hashed
      kind file last clock early =
    let there : lookup (key_of q.tool q.name) u.last ≡ some (rotation_at run.now e h) =
      rw (last, kind)
        (commit_rotated-last f run hash q.name e h p w expires hashed alive finished has) in
    refresh_profile-early f set holds_lock q later u run.cli.left (rotation_at run.now e h) there
      file (rw kind hashed) (rw kind expires) clock early
