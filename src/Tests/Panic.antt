-- ===== src/Tests/Panic.antt =====
-- The emergency pause: a pause, and what its count and end are.
use bot_flash_loan.Prelude.{◌≡◌, refl, ok, arith}
use bot_flash_loan.Prelude.Bits.{bit_and, bit_or, combine}
use bot_flash_loan.Prelude.Int.{pos, ◌+ℤ◌, ◌-ℤ◌}
use bot_flash_loan.Marginfi.Panic.{
  PanicState, initial, pause, is_expired, elapsed, unpause_if_expired, is_paused_flag, flag_set,
  can_pause, reset_daily, extended_start,
}
use bot_flash_loan.Marginfi.Panic.Limits.{Reached, starts, pauses, waits}

abbrev held : PanicState
held = record {
  pause_flags = 1;
  daily_pause_count = 1;
  consecutive_pause_count = 1;
  pause_start_timestamp = pos 100000;
  last_daily_reset_timestamp = pos 100000;
}

abbrev pub twice : PanicState
twice = record {
  pause_flags = 1;
  daily_pause_count = 2;
  consecutive_pause_count = 2;
  pause_start_timestamp = pos 101800;
  last_daily_reset_timestamp = pos 100000;
}

pause-initial : pause initial (pos 100000) ≡ ok held
unfolding pause unpause_if_expired is_paused_flag flag_set bit_and combine can_pause ◌-ℤ◌
    reset_daily extended_start bit_or
pause-initial = refl

pause-held : pause held (pos 100600) ≡ ok twice
unfolding pause unpause_if_expired is_paused_flag flag_set bit_and combine is_expired elapsed ◌-ℤ◌
    can_pause reset_daily extended_start bit_or ◌+ℤ◌
pause-held = refl

pub twice-Reached : Reached 100600 twice
twice-Reached = pauses pause-held (waits (omega arith) (pauses pause-initial starts))
