-- ===== src/Sending/Replies.antt =====
-- Whom a reply that is sent is addressed to.
use aimebu.Prelude.{
  ℤ, pos, or_zero, Text, same_iff, text_eq, to_lower, equal_fold, if◌then◌else◌, ◌==◌, Bool-cases,
  nat_eq, ℕ, suc, ◌≡◌, refl, subst, inl, inr, Bool, true, false, Option, some, List, [], ◌∷◌, ◌++◌,
  arith,
}
use aimebu.Types.{bind-ok, is_system, Message, Store, Error, Result, ok, err}
use aimebu.Posting.{system_name, message_by_id_in_room}
use aimebu.Submission.{
  has_fold, append_target_dedup, resolve_attachments, normalize_visual_plan_blocks,
  normalize_appendix_pages,
}
use aimebu.Addressing.{addressing_context, resolve_addressed_tokens}
use aimebu.Sending.{Draft, Ready, find_parent, add_parent, targets_of, prepare}

has_fold-append : (t : Text) (ts : List Text) → has_fold t (ts ++ t ∷ []) ≡ true
unfolding has_fold equal_fold
has_fold-append t [] = ground (arith, (same_iff (to_lower t) (to_lower t)).1 refl)
has_fold-append t (x ∷ ts) = elim (Bool-cases (equal_fold x t)) [
  | inl hit ↦ ground arith
  | inr miss ↦ ground (arith, has_fold-append t ts)
]

append_target_dedup-has :
    (targets : Option (List Text)) (t : Text)
    → (t == []) ≡ false
    → has_fold t (or_zero (append_target_dedup targets t) []) ≡ true
unfolding append_target_dedup
append_target_dedup-has targets t named = elim (Bool-cases (has_fold t (or_zero targets []))) [
  | inl there ↦ rw named (rw there there)
  | inr new ↦ rw named (rw new (has_fold-append t (or_zero targets [])))
]

parent_found :
    (room : Text) (to : ℤ) (n : ℕ) (s : Store) (m : Message)
    → to ≡ pos (suc n)
    → message_by_id_in_room room (suc n) s ≡ some m
    → find_parent room to s ≡ ok (some m)
unfolding find_parent
parent_found room to n s m named found = rw named (rw (find_parent, found) refl)

add_parent-has :
    (from : Text) (m : Message) (targets : Option (List Text))
    → equal_fold m.from from ≡ false
    → is_system m.from_kind ≡ false
    → (m.from == system_name) ≡ false
    → (m.from == []) ≡ false
    → has_fold m.from (or_zero (add_parent from (some m) targets) []) ≡ true
unfolding add_parent
add_parent-has from m targets other kind system named =
    rw other (rw kind (rw system (append_target_dedup-has targets m.from named)))

guarded-ok : (c : Bool) (e : Error) (x y : Ready) → (if c then err e else ok x) ≡ ok y → x ≡ y
guarded-ok true e x y h = absurd (ground arith)
guarded-ok false e x y h = ground arith

same_parent : (x : Result (Option Message)) (p q : Option Message) → x ≡ ok p → x ≡ ok q → p ≡ q
same_parent x p q h k = ground arith

module _ (valid_json : Text → Bool) (mentions : Text → List Text) where
  -- A reply that passes the checks is addressed to the sender of the message that it answers, be it
  -- mentioned in the body or not, where that sender has a name and is neither the sender of the
  -- reply nor the system.
  pub reply_reaches_sender :
      (room from : Text) (d : Draft) (now : ℕ) (s : Store) (r : Ready) (n : ℕ) (m : Message)
      → d.reply_to ≡ pos (suc n)
      → message_by_id_in_room room (suc n) s ≡ some m
      → equal_fold m.from from ≡ false
      → is_system m.from_kind ≡ false
      → (m.from == system_name) ≡ false
      → (m.from == []) ≡ false
      → prepare valid_json mentions room from d now s ≡ ok r
      → has_fold m.from (or_zero r.targets []) ≡ true
  unfolding prepare
  reply_reaches_sender room from d now s r n m to found other kind system named done =
      let (p, h0, h1) = bind-ok (find_parent room d.reply_to s) _ r done in
      let (files, h2, h3) = bind-ok (resolve_attachments d.attachments s) _ r h1 in
      let (plan, h4, h5) = bind-ok (normalize_visual_plan_blocks valid_json d.visual_plan) _ r h3 in
      let (pages, h6, h7) = bind-ok (normalize_appendix_pages d.appendix_pages) _ r h5 in
      let same_ready = guarded-ok _ _ _ r h7 in
      let answered =
        same_parent (find_parent room d.reply_to s) (some m) p
          (parent_found room d.reply_to n s m to found) h0 in
      let names =
        targets_of (mentions d.body)
          (resolve_addressed_tokens (mentions d.body) (addressing_context room from now s)) in
      subst (λ (q : Ready). has_fold m.from (or_zero q.targets []) ≡ true) same_ready
        (subst
          (λ (q : Option Message). has_fold m.from (or_zero (add_parent from q names) []) ≡ true)
          answered (add_parent-has from m names other kind system named))
