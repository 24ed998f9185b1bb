-- ===== src/Usages/Refresher/Launched.antt =====
-- The launch of the CLI: its journal entry blocks the token from there on.
use aimebu.Prelude.{
  lookup, contains, Text, same_iff, text_eq, ◌==◌, Bool-cases, nat_eq, ◌≡◌, refl, subst, ◌⊎◌, inl,
  inr, true, false, some, arith,
}
use aimebu.Usages.StateStore.{spending, started, JournalEntry, key_of, set_journal}
use aimebu.Usages.World.{Format, Profile, World, Run, change, is_spending}
use aimebu.Usages.Commits.{}
use aimebu.Usages.Refresher.{entry_at, launch}
use aimebu.Usages.Refresher.Follows.{Only, Follows, Follows-set_journal}
use aimebu.Usages.Refresher.Commit.{}
use aimebu.Usages.Refresher.Parts.{Gone}
use aimebu.Usages.Refresher.Spending.{
  Guarded, Blocked, Blocked-Follows, own_entry, set_journal-there, set_journal-Guarded,
}
use aimebu.Usages.Refresher.Settled.{Watched, Watched-Follows, Running, Blocked-same}

module _ (f : Format) (p : Profile) (hash : Text) (run : Run) (w : World) where
  -- Only the profile carries its token, and no token that was spent is guarded by its old entry.
  pub record Ready : Type 1 where
    pub unspent : contains (key_of p.tool hash) w.spent ≡ false
    pub alone :
        Only f (key_of p.tool hash) (λ tool name. (tool ≡ p.tool) × (name ≡ p.name)) w.profiles
    pub others :
        (account : Text) (e : JournalEntry)
        → contains account w.spent ≡ true
        → (key_of p.tool p.name == key_of e.tool e.name) ≡ true
        → Guarded f account e w
        → Gone f account w

  pub journaled-Watched_before :
      Watched f w
      → Ready
      → Watched f (change true (set_journal (entry_at f spending p hash run)) w)
        × (lookup
              (key_of p.tool p.name)
              (change true (set_journal (entry_at f spending p hash run)) w).store.disk.journal
            ≡ some (entry_at f spending p hash run))
  unfolding entry_at
  journaled-Watched_before h ready =
      let e = entry_at f spending p hash run in
      (
        Watched-Follows w _ h (Follows-set_journal {k = key_of p.tool p.name} e w h.clean refl)
            (λ account e' has hit g. inr (inl (ready.others account e' has hit g))),
        set_journal-there e w h.clean,
      )

  spent_by_launch :
      (account : Text)
      → contains account (launch f p.tool hash run w).spent ≡ true
      → (key_of p.tool hash ≡ account) ⊎ (contains account w.spent ≡ true)
  unfolding launch contains
  spent_by_launch account has = elim (Bool-cases (key_of p.tool hash == account)) [
    | inl own ↦ inl ((same_iff (key_of p.tool hash) account).0 own)
    | inr other ↦ inr (ground arith)
  ]

  -- Once the CLI is launched and journaled, the token is blocked if the entry before was not a guard.
  pub launched-Watched :
      (e0 : JournalEntry)
      → lookup (key_of p.tool p.name) w.store.disk.journal ≡ some e0
      → is_spending e0.phase ≡ true
      → contains (key_of p.tool hash) w.spent ≡ false
      → Only f (key_of p.tool hash) (λ tool name. (tool ≡ p.tool) × (name ≡ p.name)) w.profiles
      → Watched f w
      → Watched f
          (change true (set_journal (entry_at f started p hash run)) (launch f p.tool hash run w))
        × Running f p hash
            (change true (set_journal (entry_at f started p hash run)) (launch f p.tool hash run w))
  unfolding launch entry_at
  launched-Watched e0 there before unspent alone h =
      let e = entry_at f started p hash run in
      let running = launch f p.tool hash run w in
      let w' = change true (set_journal e) running in
      let set : Follows f (key_of p.tool p.name) w.spent running w' =
        Follows-set_journal e running h.clean refl in
      let guard = set_journal-Guarded f e running h.clean refl alone in
      (
        record {
          clean = set.clean;
          blocked = λ account has. elim (spent_by_launch account has) [
            | inl own ↦ subst (λ a. Blocked f a w') own (inr (inr (e, guard)))
            | inr earlier ↦
                Blocked-Follows account running w' set earlier
                  (λ e' hit g. absurd (
                    let same_entry =
                      own_entry f (key_of p.tool p.name) account e0 e' running there hit g in
                    let not_launched = g.launched in cc))
                  (Blocked-same account w running refl refl (h.blocked account earlier))
          ];
          once = rw (h.once, unspent) refl;
        },
        record { entry = e; there = guard.there; about = refl; alone = alone },
      )
