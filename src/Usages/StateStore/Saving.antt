-- ===== src/Usages/StateStore/Saving.antt =====
-- The store against its specification: a state to which every change is applied at once.
use aimebu.Prelude.{
  length, length-append, text_eq, nat_eq, ℕ, ◌+◌, ◌<◌, ◌≡◌, refl, sym, ap, subst, ◌∙◌, Bool, true,
  false, List, [], ◌∷◌, ◌++◌, arith,
}
use aimebu.Usages.StateStore.{
  StateData, Change, apply, apply_all, StateStore, view, mutate, keep_newest,
}

unfoldable pub mutate_all : List (Bool × Change) → StateStore → StateStore
unfolding mutate
mutate_all [] s = s
mutate_all ((saved, c) ∷ cs) s = mutate_all cs (mutate saved c s)

-- The backlog never outgrows what the store keeps.
abbrev pub Fits : ℕ → List (Bool × Change) → Type 0
Fits n [] = Unit {0}
Fits n ((true, c) ∷ cs) = Fits 0 cs
Fits n ((false, c) ∷ cs) = (n < 256) × Fits (n + 1) cs

apply_all-append :
    (cs ds : List Change) (d : StateData) → apply_all (cs ++ ds) d ≡ apply_all ds (apply_all cs d)
unfolding apply_all
apply_all-append [] ds d = refl
apply_all-append (c ∷ cs) ds d = apply_all-append cs ds (apply c d)

all_kept :
    (cs : List Change) (c : Change) → length cs < 256 → keep_newest (cs ++ c ∷ []) ≡ cs ++ c ∷ []
unfolding keep_newest
all_kept cs c h = ground (arith, length-append cs (c ∷ []))

view-failed :
    (c : Change) (s : StateStore)
    → length s.unsaved < 256
    → (view (mutate false c s) ≡ apply c (view s))
      × (length (mutate false c s).unsaved ≡ length s.unsaved + 1)
unfolding view mutate
view-failed c s h =
    let kept : keep_newest (s.unsaved ++ c ∷ []) ≡ s.unsaved ++ c ∷ [] = all_kept (s.unsaved) c h in
    (
      ap (λ cs. apply_all cs s.disk) kept ∙ apply_all-append s.unsaved (c ∷ []) s.disk,
      ap length kept ∙ length-append s.unsaved (c ∷ []) ∙ omega arith,
    )

unfoldable pub changes : List (Bool × Change) → List Change
changes [] = []
changes ((saved, c) ∷ cs) = c ∷ changes cs

saved-Fits :
    (c : Change) (s : StateStore) (calls : List (Bool × Change))
    → Fits 0 calls
    → Fits (length (mutate true c s).unsaved) calls
unfolding mutate
saved-Fits c s calls h = h

disk_of_save : (c : Change) (s : StateStore) → (mutate true c s).disk ≡ apply c (view s)
unfolding mutate
disk_of_save c s = refl

view-saved : (c : Change) (s : StateStore) → view (mutate true c s) ≡ apply c (view s)
unfolding mutate view
view-saved c s = refl

view-mutate_all :
    (calls : List (Bool × Change)) (s : StateStore)
    → Fits (length s.unsaved) calls
    → view (mutate_all calls s) ≡ apply_all (changes calls) (view s)
unfolding mutate_all apply_all changes
view-mutate_all [] s h = refl
view-mutate_all ((true, c) ∷ calls) s h =
    view-mutate_all calls (mutate true c s) (saved-Fits c s calls h)
    ∙ ap (apply_all (changes calls)) (view-saved c s)
view-mutate_all ((false, c) ∷ calls) s h =
    let (shown, longer) = view-failed c s h.0 in
    view-mutate_all calls (mutate false c s) (subst (λ n. Fits n calls) (sym longer) h.1)
    ∙ ap (apply_all (changes calls)) shown

-- While no more than 256 saves fail in a row, the store shows every change that it was asked for, in
-- order, whether it was saved or not, and the next save that succeeds puts all of them on the disk.
pub mutate_all-view :
    (calls : List (Bool × Change)) (c : Change) (s : StateStore)
    → Fits (length s.unsaved) calls
    → (view (mutate_all calls s) ≡ apply_all (changes calls) (view s))
      × ((mutate true c (mutate_all calls s)).disk ≡ apply c (apply_all (changes calls) (view s)))
mutate_all-view calls c s h =
    let shown = view-mutate_all calls s h in
    (shown, disk_of_save c (mutate_all calls s) ∙ ap (apply c) shown)
