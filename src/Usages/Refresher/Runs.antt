-- ===== src/Usages/Refresher/Runs.antt =====
-- A whole run: `spend` leaves every token that may be spent blocked, and spends its own once.
use aimebu.Prelude.{
  is_some, or_zero, lookup, insert, contains, Text, text_eq, if◌then◌else◌, ◌==◌, Bool-cases,
  nat_eq, ◌≡◌, refl, inl, inr, true, false, not, ◌&&◌, ◌||◌, none, some, [],
}
use aimebu.Usages.StateStore.{
  rotated, JournalEntry, reauth_required, needs_relogin_soon, key_of, set_journal,
}
use aimebu.Usages.World.{
  Format, Profile, World, at_point, Run, Outcome, refreshed, unknown, invalid_grant, not_sent,
  change,
}
use aimebu.Usages.Commits.{finish_commit, commit_rotated}
use aimebu.Usages.Refresher.{settle_run}
use aimebu.Usages.Refresher.Follows.{}
use aimebu.Usages.Refresher.Commit.{Fresh, Identifies}
use aimebu.Usages.Refresher.Parts.{Saved}
use aimebu.Usages.Refresher.Spending.{}
use aimebu.Usages.Refresher.Settled.{
  journaled-Watched, cleared-Watched, finished-Watched, Watched-same, Running-same, Watched,
  is_not_sent, Watched-drop, Watched-crashed, Running, settle-Watched,
}

module _ (f : Format) (p : Profile) (hash : Text) (run : Run) (saved : Saved run)
    (law : Identifies f) where
  commit_rotated-Watched :
      (w : World)
      → Fresh f p.tool run.cli.left w.spent
      → Watched f w
      → Running f p hash w
      → Watched f (commit_rotated f p hash run w)
  unfolding commit_rotated
  commit_rotated-Watched w fresh h r =
      let held = record w {
        files = elim run.rescue [ none ↦ w.files | some path ↦ insert path run.cli.left w.files ];
        pending = insert (key_of p.tool hash) run.cli.left w.pending;
      } in
      let e : JournalEntry = record {
        tool = p.tool;
        name = p.name;
        phase = rotated;
        spent_hash = hash;
        rescue = or_zero run.rescue [];
        temp_dir = if is_some run.rescue then [] else or_zero run.temp_dir [];
        started_at = run.now;
      } in
      let journaled = change true (set_journal e) held in
      let after =
        finish_commit f p.tool p.name hash (or_zero run.rescue []) run.cli.left run journaled in
      let (watched, running) =
        journaled-Watched f p hash run held saved e refl refl refl refl
          (Watched-same w held refl refl refl refl h) (Running-same f p hash w held refl refl r) in
      let finished =
        finished-Watched f p hash run journaled saved (or_zero run.rescue []) run.cli.left law fresh
          watched running in
      rw saved.on_rotate (elim (Bool-cases (at_point run.crash == 4)) [
        | inl dies ↦ rw dies (Watched-crashed journaled watched)
        | inr goes_on ↦
            elim (Bool-cases (
              (not (is_some run.rescue) || not true)
              && is_some (lookup (key_of p.tool hash) after.pending))) [
                | inl kept ↦ rw (goes_on, kept) finished
                | inr dropped ↦
                    rw (goes_on, dropped) (Watched-drop (or_zero run.temp_dir []) after finished)
              ]
      ])

  pub settle_run-Watched :
      (o : Outcome) (w : World)
      → (o ≡ refreshed → Fresh f p.tool run.cli.left w.spent)
      → (is_not_sent o ≡ true → contains (key_of p.tool hash) w.spent ≡ false)
      → Watched f w
      → Running f p hash w
      → Watched f (settle_run f o p hash run w)
  unfolding settle_run
  settle_run-Watched refreshed w fresh unsent h r = commit_rotated-Watched w (fresh refl) h r
  settle_run-Watched (not_sent noop) w fresh unsent h r = rw saved.on_clear (
      Watched-drop (or_zero run.temp_dir []) _
        (cleared-Watched f p hash run w saved noop h r (unsent refl)))
  settle_run-Watched invalid_grant w fresh unsent h r =
      Watched-drop (or_zero run.temp_dir []) _
        (settle-Watched f p hash run w saved reauth_required h r)
  settle_run-Watched unknown w fresh unsent h r =
      Watched-drop (or_zero run.temp_dir []) _
        (settle-Watched f p hash run w saved needs_relogin_soon h r)
