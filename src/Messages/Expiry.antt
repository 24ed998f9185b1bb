-- ===== src/Messages/Expiry.antt =====
-- What a bulk read with read-time expiry returns, against a description by filters.
use mathlib.Core.List.{reverse-reverse}
use aimebu.Prelude.{
  ℤ, pos, negsuc, length, drop, select, All, length-drop, length-reverse, Text, text_eq, ltb, leb,
  if◌then◌else◌, ◌==◌, Bool-cases, nat_eq, ℕ, zero, suc, ◌+◌, ◌-◌, ◌*◌, ◌/◌, ◌≤◌, ◌<◌, min, ◌≡◌,
  refl, sym, ap, subst, ◌∙◌, inl, inr, Bool, true, false, not, ◌&&◌, ◌||◌, none, some, List, [],
  ◌∷◌, ◌++◌, reverse, append-nil, append_assoc, arith,
}
use mathlib.Core.Option
use mathlib.Core.Option.{some-injective}
use aimebu.Types.{Stamp, second, stamp, Message}
use aimebu.Messages.{
  hide, no_scan, newest, room_messages_of, ExpiredMarker, Store, room_messages_with_expiry, Scan,
  candidate, expired, scan, scan_step,
}

-- All IDs lie from `lo` to `hi`.
abbrev pub InRange : ℕ → ℕ → List Message → Type 0
InRange lo hi [] = Unit {0}
InRange lo hi (m ∷ ms) = (lo ≤ m.id) × (m.id ≤ hi) × InRange lo hi ms

-- From the scan's variables `c` it came to `d` over messages of which `hs` were hidden.
abbrev Ranged : Scan → Scan → List Message → Type 0
Ranged c d hs =
    (0 < c.oldest_expired → (d.oldest_expired ≤ c.oldest_expired) × (0 < d.oldest_expired))
    × (c.newest_expired ≤ d.newest_expired)
    × InRange d.oldest_expired d.newest_expired hs

hide-Ranged :
    (m : Message) (c d : Scan) (hs : List Message)
    → 0 < m.id
    → Ranged (hide m c) d hs
    → Ranged c d (m ∷ hs)
unfolding hide
hide-Ranged m c d hs p h = (λ q. ground arith, ground arith, (ground arith, ground arith, h.2))

-- `page` is the end of `all`, backwards: all of it without a limit, at most `limit` with one.
abbrev pub IsPage : ℕ → List Message → List Message → Type 0
IsPage limit all page =
    ((older : List Message) × (all ≡ older ++ reverse page))
    × (length page ≡ (if limit == 0 then length all else min limit (length all)))

drop-split : (n : ℕ) (xs : List Message) → (older : List Message) × (xs ≡ older ++ drop n xs)
drop-split zero xs = ([], refl)
drop-split (suc n) [] = ([], refl)
drop-split (suc n) (x ∷ xs) = let (older, e) = drop-split n xs in (x ∷ older, ap (λ ys. x ∷ ys) e)

newest-split :
    (limit : ℕ) (xs : List Message) → (older : List Message) × (xs ≡ older ++ newest limit xs)
unfolding newest
newest-split limit xs = elim (Bool-cases (ltb 0 limit && ltb limit (length xs))) [
  | inl cut ↦ rw cut (drop-split (length xs - limit) xs)
  | inr whole ↦ rw whole ([], refl)
]

newest-length :
    (limit : ℕ) (xs : List Message)
    → length (newest limit xs) ≡ (if limit == 0 then length xs else min limit (length xs))
unfolding newest
newest-length limit xs = ground (arith, length-drop (length xs - limit) xs, nat_eq.agrees limit 0)

reverse-IsPage : (limit : ℕ) (xs : List Message) → IsPage limit xs (reverse (newest limit xs))
reverse-IsPage limit xs =
    let (older, e) = newest-split limit xs in
    (
      (older, e ∙ ap (λ ys. older ++ ys) (sym (reverse-reverse (newest limit xs)))),
      length-reverse (newest limit xs) ∙ newest-length limit xs,
    )

module _ (since : ℤ) (before window now : ℕ) where
  -- What a read asks for and shows, and what it asks for and hides.
  abbrev pub scanned : Message → Bool
  scanned m = candidate since before m && not (expired window now m)

  abbrev pub dropped : Message → Bool
  dropped m = candidate since before m && expired window now m

  scan-live :
      (ms : List Message) (c : Scan)
      → (scan since before window now ms c).live ≡ c.live ++ select scanned ms
  unfolding scan scan_step
  scan-live [] c = sym (append-nil c.live)
  scan-live (m ∷ ms) c =
      scan-live ms (scan_step since before window now m c)
      ∙ ground (arith, append_assoc c.live (m ∷ []) (select scanned ms))

  scan-count :
      (ms : List Message) (c : Scan)
      → (scan since before window now ms c).expired_count
        ≡ c.expired_count + length (select dropped ms)
  unfolding scan scan_step
  scan-count [] c = omega arith
  scan-count (m ∷ ms) c = ground (arith, scan-count ms (scan_step since before window now m c))

  step_out :
      (m : Message) (c : Scan)
      → candidate since before m ≡ false
      → scan_step since before window now m c ≡ c
  unfolding scan_step
  step_out m c h = rw h

  step_shown :
      (m : Message) (c : Scan)
      → candidate since before m ≡ true
      → expired window now m ≡ false
      → scan_step since before window now m c ≡ record c { live = c.live ++ m ∷ [] }
  unfolding scan_step
  step_shown m c h f = rw (h, f)

  step_hidden :
      (m : Message) (c : Scan)
      → candidate since before m ≡ true
      → expired window now m ≡ true
      → scan_step since before window now m c ≡ hide m c
  unfolding scan_step
  step_hidden m c h f = rw (h, f)

  -- The marker's range has every hidden message in it.
  scan-range :
      (ms : List Message) (c : Scan)
      → All (λ m. 0 < m.id) ms
      → Ranged c (scan since before window now ms c) (select dropped ms)
  unfolding scan
  scan-range [] c p = (λ h. (omega arith, h), omega arith, tt)
  scan-range (m ∷ ms) c p = elim (Bool-cases (candidate since before m)) [
    | inr out ↦ from_step (step_out m c out) (rw out (scan-range ms c p.1))
    | inl asked ↦ elim (Bool-cases (expired window now m)) [
      | inr fresh ↦
          from_step (step_shown m c asked fresh)
            (rw (asked, fresh) (scan-range ms (record c { live = c.live ++ m ∷ [] }) p.1))
      | inl old ↦ from_step (step_hidden m c asked old) (
          rw (asked, old)
            (hide-Ranged m c (scan since before window now ms (hide m c)) (select dropped ms) p.0
              (scan-range ms (hide m c) p.1)))
    ]
  ]
    where
      from_step :
          {c' : Scan}
          → scan_step since before window now m c ≡ c'
          → Ranged c (scan since before window now ms c') (select dropped (m ∷ ms))
          → Ranged c
              (scan since before window now ms (scan_step since before window now m c))
              (select dropped (m ∷ ms))
      from_step e =
          subst (λ x. Ranged c (scan since before window now ms x) (select dropped (m ∷ ms)))
            (sym e)

  -- Nothing expires without a window.
  none_hidden : (ms : List Message) → ltb 0 window ≡ false → select dropped ms ≡ []
  none_hidden [] h = refl
  none_hidden (m ∷ ms) h = ground (arith, none_hidden ms h)

  -- In the code's own tests.
  pub room_messages_with_expiry_by_scan :
      (room : Text) (limit : ℕ) (s : Store)
      → let ms = room_messages_of room s in
        let (live, marker) = room_messages_with_expiry room limit since before window now s in
        (live ≡ reverse (newest limit (select scanned ms)))
        × (Option.map {B = ℕ × Stamp}
              (λ (k : ExpiredMarker). (k.hidden_count, k.expired_before))
              marker
            ≡ (if ltb 0 (length (select dropped ms))
                then some (length (select dropped ms), stamp (now - window))
                else none))
  unfolding room_messages_with_expiry
  room_messages_with_expiry_by_scan room limit s =
      let ms = room_messages_of room s in
      (
        ap (λ (xs : List Message). reverse (newest limit xs)) (scan-live ms no_scan),
        ground (arith, scan-count ms no_scan, none_hidden ms),
      )

  range_by_scan :
      (room : Text) (limit : ℕ) (s : Store) (k : ExpiredMarker)
      → All (λ m. 0 < m.id) (room_messages_of room s)
      → (room_messages_with_expiry room limit since before window now s).1 ≡ some k
      → InRange k.oldest_id k.newest_expired_id (select dropped (room_messages_of room s))
  unfolding room_messages_with_expiry
  range_by_scan room limit s k p h =
      rw (oldest, latest) (scan-range (room_messages_of room s) no_scan p).2
    where
      c : Scan
      c = scan since before window now (room_messages_of room s) no_scan

      oldest : k.oldest_id ≡ c.oldest_expired
      oldest = ground arith

      latest : k.newest_expired_id ≡ c.newest_expired
      latest = ground arith

  -- What a read asks for: what is before `before` when it pages back, what is after `since` else.
  abbrev pub asked : Message → Bool
  asked m =
      (before == 0 && elim since [ pos z ↦ not (leb m.id z) | negsuc z ↦ true ]) || ltb m.id before

  -- What is as old as the window, or older; without a window nothing is.
  abbrev pub too_old : Message → Bool
  too_old m = elim m.created_at [
    | none ↦ false
    | some t ↦ ltb 0 window && not (ltb now (t + window))
  ]

  abbrev pub shown : Message → Bool
  shown m = asked m && not (too_old m)

  abbrev pub hidden : Message → Bool
  hidden m = asked m && too_old m

  asked-candidate : (m : Message) → candidate since before m ≡ asked m
  asked-candidate m = by_since since m
    where
      by_since :
          (z : ℤ) (m : Message)
          → candidate z before m ≡ (
              (before == 0 && elim z [ pos z ↦ not (leb m.id z) | negsuc z ↦ true ])
              || ltb m.id before)
      by_since (pos z) m = ground (arith, nat_eq.agrees before 0)
      by_since (negsuc z) m = ground (arith, nat_eq.agrees before 0)

  too_old-expired : (m : Message) → expired window now m ≡ too_old m
  too_old-expired m = by_stamp m.created_at
    where
      by_stamp :
          (t : Stamp)
          → (ltb 0 window && elim t [ none ↦ false | some t ↦ leb (t + window) now ])
            ≡ elim t [ none ↦ false | some t ↦ ltb 0 window && not (ltb now (t + window)) ]
      by_stamp none = ground arith
      by_stamp (some t) = ground arith

  select-shown : (ms : List Message) → select scanned ms ≡ select shown ms
  select-shown [] = refl
  select-shown (m ∷ ms) =
      rw (asked-candidate m, too_old-expired m)
        (ap (λ rest. if shown m then m ∷ rest else rest) (select-shown ms))

  select-hidden : (ms : List Message) → select dropped ms ≡ select hidden ms
  select-hidden [] = refl
  select-hidden (m ∷ ms) =
      rw (asked-candidate m, too_old-expired m)
        (ap (λ rest. if hidden m then m ∷ rest else rest) (select-hidden ms))

  -- Of the messages asked for, those below `before` if that is given and those above `since` else,
  -- the read shows those that are younger than the window: the newest `limit` of them, or all
  -- without a limit, newest first. The marker stands exactly if some were as old as the window; it
  -- counts them and names the time before which they were sent.
  pub room_messages_with_expiry_lem :
      (room : Text) (limit : ℕ) (s : Store)
      → let ms = room_messages_of room s in
        let (live, marker) = room_messages_with_expiry room limit since before window now s in
        IsPage limit (select shown ms) live
        × (Option.map {B = ℕ × Stamp}
              (λ (k : ExpiredMarker). (k.hidden_count, k.expired_before))
              marker
            ≡ (if ltb 0 (length (select hidden ms))
                then some (length (select hidden ms), some ((now - window) / second * second))
                else none))
  room_messages_with_expiry_lem room limit s =
      let ms = room_messages_of room s in
      let (live, marker) = room_messages_with_expiry_by_scan room limit s in
      (
        subst
            (λ xs.
              IsPage limit xs (room_messages_with_expiry room limit since before window now s).0)
            (select-shown ms)
            (subst (IsPage limit (select scanned ms)) (sym live)
              (reverse-IsPage limit (select scanned ms))),
        marker
            ∙ ap
                (λ (xs : List Message).
                  if ltb 0 (length xs) then some (length xs, stamp (now - window)) else none)
                (select-hidden ms),
      )

  -- Every hidden message's ID lies in the marker's range.
  pub room_messages_with_expiry_range :
      (room : Text) (limit : ℕ) (s : Store) (k : ExpiredMarker)
      → All (λ m. 0 < m.id) (room_messages_of room s)
      → (room_messages_with_expiry room limit since before window now s).1 ≡ some k
      → InRange k.oldest_id k.newest_expired_id (select hidden (room_messages_of room s))
  room_messages_with_expiry_range room limit s k p h =
      subst (InRange k.oldest_id k.newest_expired_id) (select-hidden (room_messages_of room s))
        (range_by_scan room limit s k p h)
