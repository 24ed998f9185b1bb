-- ===== src/Usages/Rotation/Gaps.antt =====
-- How far apart refreshes are.
use aimebu.Prelude.{
  same_iff, text_eq, nat_eq, ℕ, zero, suc, ◌+◌, ◌-◌, ◌*◌, ◌≤◌, ◌<◌, ◌≡◌, refl, ◌⊎◌, inl, inr, true,
  not, ◌&&◌, some, arith,
}
use aimebu.Usages.Rotation.{
  minute, refresh_min_gap, LastRotation, target_profile_due, effective_lead, target_backoff,
  doublings,
}

-- A token that was rotated is not due within half an hour, however long the lead is, if
-- the clock has not been set back or the token lives for longer than half an hour.
pub due-gap :
    (lead : ℕ) (l : LastRotation) (now : ℕ)
    → (l.at ≤ now) ⊎ (l.at + refresh_min_gap < l.expires_at)
    → (not (effective_lead lead (some l) l.token_hash now).1
        && target_profile_due
            (some l.expires_at)
            now
            (effective_lead lead (some l) l.token_hash now).0)
      ≡ true
    → l.at + refresh_min_gap ≤ now
unfolding effective_lead target_profile_due
due-gap lead l now (inl forward) h = ground (arith, (same_iff l.token_hash l.token_hash).1 refl)
due-gap lead l now (inr lives) h = ground (arith, (same_iff l.token_hash l.token_hash).1 refl)

doublings-ge : (n d : ℕ) → d ≤ doublings n d
unfolding doublings
doublings-ge zero d = omega arith
doublings-ge (suc n) d = ground (arith, doublings-ge n (2 * d))

-- A failed account waits for between five and thirty minutes.
pub target_backoff_bounds :
    (failures : ℕ)
    → (5 * minute ≤ target_backoff failures) × (target_backoff failures ≤ 30 * minute)
unfolding target_backoff
target_backoff_bounds failures = omega (arith, doublings-ge (failures - 1) (5 * minute))
