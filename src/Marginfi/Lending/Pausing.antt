-- ===== src/Marginfi/Lending/Pausing.antt =====
-- The emergency pause (Panic) of a group ends by itself.
use bot_flash_loan.Prelude.{ℕ, ◌+◌, ◌≤◌, ◌<◌, ◌≡◌, true, false, ok, arith}
use bot_flash_loan.Prelude.Int.{ℤ, pos}
use bot_flash_loan.Marginfi.Panic.{
  PanicState, is_paused_flag, is_expired, cache_is_expired, update_from_panic_state,
}
use bot_flash_loan.Marginfi.Panic.Limits.{Reached, far, Reached-is_expired}
use bot_flash_loan.Marginfi.Group.{MarginfiGroup, is_protocol_paused}

-- A group whose copy was made, at any time, of a state of the pause that was reached by pauses,
-- ends of pauses and waiting is not paused an hour later (before 2 ^ 62 seconds).
pub is_protocol_paused-Reached :
    (t now : ℕ) (copied : ℤ) (s : PanicState) (g : MarginfiGroup)
    → g.panic_state_cache ≡ update_from_panic_state s copied
    → Reached t s
    → t + 3600 ≤ now
    → now < far
    → is_protocol_paused g (pos now) ≡ ok false
unfolding is_protocol_paused update_from_panic_state cache_is_expired is_expired is_paused_flag
is_protocol_paused-Reached t now copied s g e r h small =
    rw (e) (not_paused s (pos now) (Reached-is_expired t now s r h small))
  where
    not_paused :
        (s : PanicState) (now : ℤ)
        → is_expired s now ≡ ok true
        → is_protocol_paused (record g { panic_state_cache = update_from_panic_state s copied }) now
          ≡ ok false
    not_paused s now k = ground (arith, k)
