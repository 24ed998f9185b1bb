-- ===== src/Usages/Refresher/Spent.antt =====
-- `spend` as a whole: its token is spent once, and blocked from then on.
use aimebu.Prelude.{
  is_some, contains, Text, text_eq, if◌then◌else◌, ◌==◌, Bool-cases, nat_eq, ◌≡◌, refl, inl, inr,
  Bool, true, false, List, ◌∷◌, arith,
}
use aimebu.Usages.StateStore.{key_of}
use aimebu.Usages.World.{
  Format, Profile, World, at_point, Run, refreshed, note_failure, change, crashed,
}
use aimebu.Usages.Commits.{}
use aimebu.Usages.Refresher.{
  started, spending, set_journal, entry_at, settle_run, outcome_of, launch, spend,
}
use aimebu.Usages.Refresher.Commit.{Fresh, Identifies}
use aimebu.Usages.Refresher.Parts.{Saved}
use aimebu.Usages.Refresher.Settled.{Watched-crashed, Running, Watched, is_not_sent, Watched-same}
use aimebu.Usages.Refresher.Runs.{settle_run-Watched}
use aimebu.Usages.Refresher.Launched.{Ready, journaled-Watched_before, launched-Watched}

-- What is relied on outside the refresher: its state file can be written, the process does not die
-- between the launch of the CLI and the note of it, a consumed token shows in what the CLI says, and
-- a login that the CLI obtains has a token that was not spent.
pub record Honest (f : Format) (p : Profile) (start hash : Text) (run : Run) (w : World)
    : Type 1 where
  pub saved : Saved run
  pub noted_launch : run.cli.consumed ≡ true → (at_point run.crash == 2) ≡ false
  pub shows : run.cli.consumed ≡ true → is_not_sent (outcome_of f p start run) ≡ false
  pub fresh :
      outcome_of f p start run ≡ refreshed
      → Fresh f p.tool run.cli.left (key_of p.tool hash ∷ w.spent)

module _ (f : Format) (p : Profile) (start hash : Text) (run : Run) (w : World) (law : Identifies f)
    (honest : Honest f p start hash run w) where
  Fresh-now :
      (s : List Text) (consumed : Bool)
      → Fresh f p.tool run.cli.left (key_of p.tool hash ∷ s)
      → Fresh f p.tool run.cli.left (if consumed then key_of p.tool hash ∷ s else s)
  unfolding contains
  Fresh-now s true fresh account has = fresh account has
  Fresh-now s false fresh account has = fresh account (ground arith)

  unspent_now :
      contains (key_of p.tool hash) w.spent ≡ false
      → is_not_sent (outcome_of f p start run) ≡ true
      → contains
          (key_of p.tool hash)
          (if run.cli.consumed then key_of p.tool hash ∷ w.spent else w.spent)
        ≡ false
  unspent_now unspent not_sent_run = elim (Bool-cases run.cli.consumed) [
    | inl used ↦ absurd (let shown = honest.shows used in cc)
    | inr unused ↦ rw unused unspent
  ]

  unused_launch :
      (w1 : World)
      → w1.spent ≡ w.spent
      → contains (key_of p.tool hash) w.spent ≡ false
      → (at_point run.crash == 2) ≡ true
      → Watched f w1
      → Watched f (launch f p.tool hash run w1)
  unfolding launch
  unused_launch w1 same_spent unspent dies h = elim (Bool-cases run.cli.consumed) [
    | inl used ↦ absurd (let later = honest.noted_launch used in cc)
    | inr unused ↦
        Watched-same w1 _ refl refl (rw unused refl) (rw (same_spent, unspent, h.once) refl) h
  ]

  ended-Watched :
      (w1 : World)
      → Watched f w1
      → Running f p hash w1
      → (outcome_of f p start run ≡ refreshed → Fresh f p.tool run.cli.left w1.spent)
      → (is_not_sent (outcome_of f p start run) ≡ true
          → contains (key_of p.tool hash) w1.spent ≡ false)
      → Watched f (
          if at_point run.crash == 3
          then crashed w1
          else settle_run f (outcome_of f p start run) p hash run w1)
  ended-Watched w1 h r fresh unsent = elim (Bool-cases (at_point run.crash == 3)) [
    | inl dies ↦ rw dies (Watched-crashed w1 h)
    | inr goes_on ↦ rw goes_on (
        settle_run-Watched f p hash run honest.saved law (outcome_of f p start run) w1 fresh unsent
          h r)
  ]

  pub spend-Watched : Watched f w → Ready f p hash run w → Watched f (spend f p start hash run w)
  unfolding spend launch note_failure
  spend-Watched h ready = elim (Bool-cases (is_some run.temp_dir)) [
    | inl copied ↦
        let journaled = change true (set_journal (entry_at f spending p hash run)) w in
        let marked =
          change true (set_journal (entry_at f started p hash run))
            (launch f p.tool hash run journaled) in
        let (before, there) = journaled-Watched_before f p hash run w h ready in
        let (after, running) =
          launched-Watched f p hash run journaled (entry_at f spending p hash run) there refl
            ready.unspent ready.alone before in
        simp (copied, honest.saved.on_spend, honest.saved.on_start)
          (elim (Bool-cases (at_point run.crash == 1)) [
            | inl dies ↦ simp dies (Watched-crashed journaled before)
            | inr lives ↦ simp lives (elim (Bool-cases run.cli.client_started) [
              | inl client ↦ simp client (elim (Bool-cases (at_point run.crash == 2)) [
                | inl dies ↦
                    simp dies
                      (Watched-crashed _ (unused_launch journaled refl ready.unspent dies before))
                | inr on ↦ simp on (
                    ended-Watched marked after running
                      (λ o. Fresh-now w.spent run.cli.consumed (honest.fresh o))
                      (unspent_now ready.unspent))
              ])
              | inr none_started ↦ simp none_started (elim (Bool-cases (at_point run.crash == 2)) [
                | inl dies ↦ simp dies (Watched-crashed journaled before)
                | inr on ↦ simp on (
                    ended-Watched journaled before
                      (record {
                        entry = entry_at f spending p hash run;
                        there = there;
                        about = refl;
                        alone = ready.alone;
                      })
                      (λ o. Fresh-now w.spent false (honest.fresh o)) (λ _. ready.unspent))
              ])
            ])
          ])
    | inr failed_copy ↦ simp failed_copy (Watched-same w _ refl refl refl refl h)
  ]
