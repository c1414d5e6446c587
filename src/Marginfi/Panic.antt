-- ===== src/Marginfi/Panic.antt =====
-- The emergency pause: marginfi-v2/type-crate/src/types/panic_state_cache.rs and
-- marginfi-v2/programs/marginfi/src/state/panic_state.rs. A timestamp is an `i64`.
pub mod Limits
use bot_flash_loan.Prelude.{
  ℕ, ◌*◌, Bool, true, not, ◌&&◌, ◌||◌, Result, ok, err, check, ok_or, ◌>>=◌, ◌>>◌, ◌==◌, ltb,
  if◌then◌else◌,
}
use bot_flash_loan.Prelude.Bits.{mask, bit_and, bit_or}
use bot_flash_loan.Prelude.Int.{ℤ, pos, ltb_ℤ}
use bot_flash_loan.Prelude.Machine.{
  sub_i64, saturating_sub_i64, saturating_add_i64, saturating_inc_u8,
}
use bot_flash_loan.Marginfi.Error.{MarginfiError}
use bot_flash_loan.Marginfi.Account.{Failure, marginfi, panic}

pub record PanicState : Type 0 where
  pub pause_flags : ℕ
  pub daily_pause_count : ℕ
  pub consecutive_pause_count : ℕ
  pub pause_start_timestamp : ℤ
  pub last_daily_reset_timestamp : ℤ

-- The copy that a group keeps.
pub record PanicStateCache : Type 0 where
  pub pause_flags : ℕ
  pub pause_start_timestamp : ℤ
  pub last_cache_update : ℤ

abbrev pub flag_paused : ℕ
flag_paused = mask 0

abbrev pub pause_duration_seconds : ℤ
pause_duration_seconds = pos (30 * 60)

abbrev pub max_consecutive_pauses : ℕ
max_consecutive_pauses = 2

abbrev pub max_daily_pauses : ℕ
max_daily_pauses = 3

abbrev pub daily_reset_interval : ℤ
daily_reset_interval = pos (24 * 60 * 60)

-- `PanicState::default()`
abbrev pub initial : PanicState
initial = record {
  pause_flags = 0;
  daily_pause_count = 0;
  consecutive_pause_count = 0;
  pause_start_timestamp = pos 0;
  last_daily_reset_timestamp = pos 0;
}

abbrev pub leb_ℤ : ℤ → ℤ → Bool
leb_ℤ a b = not (ltb_ℤ b a)

unfoldable pub flag_set : ℕ → Bool
flag_set flags = not (bit_and flags flag_paused == 0)

unfoldable pub is_paused_flag : PanicState → Bool
is_paused_flag s = flag_set s.pause_flags

-- What `is_expired` of the state and of its cache do after the flag is found set.
unfoldable pub elapsed : ℤ → ℤ → Result Failure Bool
elapsed start now =
    if ltb_ℤ now start
    then ok (not true)
    else ok_or (sub_i64 now start) panic >>= λ d. ok (leb_ℤ pause_duration_seconds d)

unfoldable pub is_expired : PanicState → ℤ → Result Failure Bool
is_expired s now = if not (is_paused_flag s) then ok true else elapsed s.pause_start_timestamp now

unfoldable pub cache_is_expired : PanicStateCache → ℤ → Result Failure Bool
cache_is_expired c now =
    if not (flag_set c.pause_flags) then ok true else elapsed c.pause_start_timestamp now

unfoldable pub update_from_panic_state : PanicState → ℤ → PanicStateCache
update_from_panic_state s now = record {
  pause_flags = s.pause_flags;
  pause_start_timestamp = s.pause_start_timestamp;
  last_cache_update = now;
}

unfoldable pub can_pause : PanicState → ℤ → Result Failure Bool
can_pause s now = do
  since ← ok_or (sub_i64 now s.last_daily_reset_timestamp) panic
  ok (
      ltb s.consecutive_pause_count max_consecutive_pauses
      && ltb (if leb_ℤ daily_reset_interval since then 0 else s.daily_pause_count) max_daily_pauses)

-- `!FLAG_PAUSED` on a `u8`.
abbrev pub not_flag_paused : ℕ
not_flag_paused = 254

unfoldable pub unpause : PanicState → PanicState
unpause s = record s {
  pause_flags = bit_and s.pause_flags not_flag_paused;
  pause_start_timestamp = pos 0;
  consecutive_pause_count = 0;
}

unfoldable pub unpause_if_expired : PanicState → ℤ → Result Failure PanicState
unpause_if_expired s now =
    if is_paused_flag s
    then is_expired s now >>= (λ expired. ok (if expired then unpause s else s))
    else ok s

-- The daily count starts again after a day.
unfoldable pub reset_daily : PanicState → ℤ → PanicState
reset_daily s now =
    if leb_ℤ daily_reset_interval (saturating_sub_i64 now s.last_daily_reset_timestamp)
    then record s { daily_pause_count = 0; last_daily_reset_timestamp = now }
    else s

-- A pause that is still running is extended.
unfoldable pub extended_start : PanicState → ℤ → Result Failure ℤ
extended_start s now =
    if is_paused_flag s
    then is_expired s now >>= (λ expired.
      ok (
        if expired then now else saturating_add_i64 s.pause_start_timestamp pause_duration_seconds))
    else ok now

unfoldable pub pause : PanicState → ℤ → Result Failure PanicState
pause s now = do
  cleared ← unpause_if_expired s now
  allowed ← can_pause (reset_daily cleared now) now
  check allowed (marginfi MarginfiError.pause_limit_exceeded)
  start ← extended_start (reset_daily cleared now) now
  ok (record (reset_daily cleared now) {
    pause_start_timestamp = start;
    pause_flags = bit_or (reset_daily cleared now).pause_flags flag_paused;
    daily_pause_count = saturating_inc_u8 (reset_daily cleared now).daily_pause_count;
    consecutive_pause_count = saturating_inc_u8 (reset_daily cleared now).consecutive_pause_count;
  })
