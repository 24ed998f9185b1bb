-- ===== src/Usages/Rotation.antt =====
-- When a token is due, and how long a failed account waits: targetProfileDue, targetBackoff and the
-- safety net of target_refresh_last.go. Times and durations are nanoseconds.
pub mod Gaps
use aimebu.Prelude.{
  Text, text_eq, ltb, leb, if◌then◌else◌, ◌==◌, nat_eq, ℕ, zero, suc, ◌+◌, ◌-◌, ◌*◌, min, Bool,
  true, false, not, ◌&&◌, Option, none, some,
}

abbrev pub minute : ℕ
minute = 60_000_000_000

abbrev pub refresh_min_gap : ℕ
refresh_min_gap = 30 * minute

-- The last rotation of a profile, and the hash of the token that it produced.
pub record LastRotation : Type 0 where
  pub at : ℕ
  pub expires_at : ℕ
  pub token_hash : Text

-- `!now.Before(expiresAt.Add(-lead))`
unfoldable pub target_profile_due : Option ℕ → ℕ → ℕ → Bool
target_profile_due none now lead = false
target_profile_due (some expires) now lead = leb expires (now + lead)

-- The lead to judge a profile by, and whether it is too soon after its last rotation.
unfoldable pub effective_lead : ℕ → Option LastRotation → Text → ℕ → ℕ × Bool
effective_lead lead none current now = (lead, false)
effective_lead lead (some l) current now =
    if not (l.token_hash == current)
    then (lead, false)
    else if leb l.at now && ltb now (l.at + refresh_min_gap)
    then (lead, true)
    else if ltb (l.at + refresh_min_gap) l.expires_at
        && ltb (l.expires_at - l.at - refresh_min_gap) lead
    then (l.expires_at - l.at - refresh_min_gap, false)
    else (lead, false)

doublings : ℕ → ℕ → ℕ
doublings zero d = d
doublings (suc n) d = let rest = doublings n (2 * d) in if ltb d (30 * minute) then rest else d

-- Five minutes, doubled with every failure in a row, at most thirty.
unfoldable pub target_backoff : ℕ → ℕ
unfolding doublings
target_backoff failures = min (doublings (failures - 1) (5 * minute)) (30 * minute)
