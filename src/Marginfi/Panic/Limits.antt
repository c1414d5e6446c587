-- ===== src/Marginfi/Panic/Limits.antt =====
-- The emergency pause cannot last: what holds of every state that the operations reach.
use mathlib.Core.Path.{subst}
use bot_flash_loan.Prelude.{
  ℕ, ◌+◌, ◌-◌, ◌*◌, ◌^◌, ◌≤◌, ◌<◌, ◌≡◌, ◌⊎◌, refl, sym, Bool, true, false, if◌then◌else◌, ok,
  ok-injective, arith, ◌==◌, >>=-eq-ok, inl, inr, check, check-eq-ok,
}
use bot_flash_loan.Prelude.Bits.{
  bit, bit_and, bit_or, bit-bit_and, bit-bit_or, bit_and-mask, bit-lt,
}
use bot_flash_loan.Prelude.Int.{ℤ, pos, ◌+ℤ◌, ◌-ℤ◌}
use bot_flash_loan.Prelude.Machine.{saturating_add_i64, saturating_inc_u8}
use bot_flash_loan.Marginfi.Error.{MarginfiError}
use bot_flash_loan.Marginfi.Account.{marginfi}
use bot_flash_loan.Marginfi.Panic.{
  PanicState, initial, flag_set, flag_paused, not_flag_paused, is_paused_flag, is_expired, elapsed,
  can_pause, unpause, unpause_if_expired, reset_daily, extended_start, pause,
  pause_duration_seconds,
}

flag_set-bit : (f : ℕ) → flag_set f ≡ (bit 0 f == 1)
unfolding flag_set
flag_set-bit f = ground (arith, bit_and-mask 0 f (omega arith))

flag_set-bit_or : (f : ℕ) → flag_set (bit_or f flag_paused) ≡ true
flag_set-bit_or f =
    rw (flag_set-bit (bit_or f flag_paused))
      (ground (arith, bit-bit_or 0 f flag_paused (omega arith), bit-lt 0 f))

flag_set-bit_and : (f : ℕ) → flag_set (bit_and f not_flag_paused) ≡ false
flag_set-bit_and f =
    rw (flag_set-bit (bit_and f not_flag_paused))
      (ground (arith, bit-bit_and 0 f not_flag_paused (omega arith), bit-lt 0 f))

-- Times that the program can meet: seconds before the year 10^11.
abbrev pub far : ℕ
far = 2 ^ 62

-- A state at time `t`, in seconds.
record Inv (t : ℕ) (s : PanicState) : Type 0 where
  begun : ℕ
  begun_is : s.pause_start_timestamp ≡ pos begun
  begun_by : begun ≤ t + 1800 * (s.consecutive_pause_count - 1)
  reset : ℕ
  reset_is : s.last_daily_reset_timestamp ≡ pos reset
  reset_by : reset ≤ t
  few : s.consecutive_pause_count ≤ 2
  few_daily : s.daily_pause_count ≤ 3
  running : is_paused_flag s ≡ true → 1 ≤ s.consecutive_pause_count

initial-Inv : (t : ℕ) → Inv t initial
unfolding is_paused_flag
initial-Inv t = record {
  begun = 0;
  begun_is = refl;
  begun_by = omega arith;
  reset = 0;
  reset_is = refl;
  reset_by = omega arith;
  few = omega arith;
  few_daily = omega arith;
  running = λ h. absurd (ground (arith, h, flag_set-bit 0));
}

later-Inv : {t t' : ℕ} {s : PanicState} → t ≤ t' → Inv t s → Inv t' s
later-Inv le v = record {
  begun = v.begun;
  begun_is = v.begun_is;
  begun_by = let h = v.begun_by in omega arith;
  reset = v.reset;
  reset_is = v.reset_is;
  reset_by = let h = v.reset_by in omega arith;
  few = v.few;
  few_daily = v.few_daily;
  running = v.running;
}

unpause-Inv : {t : ℕ} (s : PanicState) → Inv t s → Inv t (unpause s)
unfolding unpause is_paused_flag
unpause-Inv s v = record {
  begun = 0;
  begun_is = refl;
  begun_by = omega arith;
  reset = v.reset;
  reset_is = v.reset_is;
  reset_by = v.reset_by;
  few = omega arith;
  few_daily = v.few_daily;
  running = λ h. absurd (ground (arith, h, flag_set-bit_and s.pause_flags));
}

elapsed_eq :
    (start now : ℕ) → start + 1800 ≤ now → now < far → elapsed (pos start) (pos now) ≡ ok true
unfolding elapsed ◌-ℤ◌
elapsed_eq start now h k = ground arith

-- At a time at least an hour later the pause is over.
Inv-is_expired :
    {t : ℕ} (now : ℕ) (s : PanicState)
    → Inv t s
    → t + 3600 ≤ now
    → now < far
    → is_expired s (pos now) ≡ ok true
unfolding is_expired
Inv-is_expired now s v h k =
    let by = v.begun_by in let few = v.few in ground (arith, v.begun_is, elapsed_eq v.begun now)

expire_cases :
    (s s' : PanicState) (now : ℤ) → unpause_if_expired s now ≡ ok s' → (s' ≡ unpause s) ⊎ (s' ≡ s)
unfolding unpause_if_expired
expire_cases s s' now h = ground (arith, h)

unpause_if_expired-Inv :
    {t : ℕ} (s s' : PanicState) (now : ℤ) → unpause_if_expired s now ≡ ok s' → Inv t s → Inv t s'
unpause_if_expired-Inv {t} s s' now h v = elim (expire_cases s s' now h) [
  | inl e ↦ subst (Inv t) (sym e) (unpause-Inv s v)
  | inr e ↦ subst (Inv t) (sym e) v
]

reset_daily-Inv : {t : ℕ} (s : PanicState) → Inv t s → Inv t (reset_daily s (pos t))
unfolding reset_daily is_paused_flag
reset_daily-Inv {t} s v =
    if_Inv _
      (record {
        begun = v.begun;
        begun_is = v.begun_is;
        begun_by = v.begun_by;
        reset = t;
        reset_is = refl;
        reset_by = omega arith;
        few = v.few;
        few_daily = omega arith;
        running = v.running;
      })
      v
  where
    if_Inv : {a b : PanicState} (c : Bool) → Inv t a → Inv t b → Inv t (if c then a else b)
    if_Inv true p q = p
    if_Inv false p q = q

-- The start of a pause: now, or the end of the one that still runs.
record Started (t : ℕ) (s : PanicState) (start : ℤ) : Type 0 where
  from : ℕ
  from_is : start ≡ pos from
  from_by : from ≤ t + 1800 * s.consecutive_pause_count

far_sum : (b : ℕ) → b < far → saturating_add_i64 (pos b) pause_duration_seconds ≡ pos (b + 1800)
unfolding ◌+ℤ◌
far_sum b h = ground arith

-- The start is computed on both sides of whether the running pause is over.
start_cases :
    (s : PanicState) (now start : ℤ)
    → extended_start s now ≡ ok start
    → (start ≡ now)
      ⊎ ((is_paused_flag s ≡ true)
          × (start ≡ saturating_add_i64 s.pause_start_timestamp pause_duration_seconds))
unfolding extended_start
start_cases s now start h = ground (arith, h)

extended_start-Started :
    (t : ℕ) (s : PanicState) (start : ℤ)
    → t < far - 1800
    → Inv t s
    → extended_start s (pos t) ≡ ok start
    → Started t s start
extended_start-Started t s start small v h = elim (start_cases s (pos t) start h) [
  | inl e ↦ record { from = t; from_is = e; from_by = omega arith }
  | inr (running, e) ↦
      let by = v.begun_by in
      let few = v.few in
      let one = v.running running in
      record {
        from = v.begun + 1800;
        from_is = rw (e, v.begun_is) (far_sum v.begun (omega arith));
        from_by = omega arith;
      }
]

can_pause_consecutive :
    (s : PanicState) (now : ℤ) → can_pause s now ≡ ok true → s.consecutive_pause_count < 2
unfolding can_pause
can_pause_consecutive s now h = ground (arith, h)

can_pause_daily :
    (s : PanicState) (now reset : ℕ)
    → can_pause s (pos now) ≡ ok true
    → s.last_daily_reset_timestamp ≡ pos reset
    → now < reset + 86400
    → s.daily_pause_count < 3
unfolding can_pause ◌-ℤ◌
can_pause_daily s now reset h e recent = ground (arith, h, e)

recent_cases :
    (t reset : ℕ) (s : PanicState)
    → s.last_daily_reset_timestamp ≡ pos reset
    → reset ≤ t
    → t < far
    → ((reset_daily s (pos t)).last_daily_reset_timestamp ≡ pos t)
      ⊎ (((reset_daily s (pos t)).last_daily_reset_timestamp ≡ pos reset) × (t < reset + 86400))
unfolding reset_daily ◌-ℤ◌
recent_cases t reset s e h small = ground (arith, e)

-- After the reset a count that may rise is below the limit.
reset_daily-can_pause :
    {t : ℕ} (s : PanicState)
    → t < far
    → Inv t s
    → can_pause (reset_daily s (pos t)) (pos t) ≡ ok true
    → (reset_daily s (pos t)).daily_pause_count < 3
reset_daily-can_pause {t} s small v h =
    elim (recent_cases t v.reset s v.reset_is v.reset_by small) [
      | inl e ↦ can_pause_daily (reset_daily s (pos t)) t t h e (omega arith)
      | inr (e, recent) ↦ can_pause_daily (reset_daily s (pos t)) t v.reset h e recent
    ]

-- The state that `pause` writes.
paused : PanicState → ℤ → PanicState
paused s start = record s {
  pause_start_timestamp = start;
  pause_flags = bit_or s.pause_flags flag_paused;
  daily_pause_count = saturating_inc_u8 s.daily_pause_count;
  consecutive_pause_count = saturating_inc_u8 s.consecutive_pause_count;
}

paused-Inv :
    {t : ℕ} (s : PanicState) (start : ℤ)
    → Inv t s
    → Started t s start
    → s.consecutive_pause_count < 2
    → s.daily_pause_count < 3
    → Inv t (paused s start)
unfolding paused
paused-Inv s start v b few few_daily =
    let by = b.from_by in
    record {
      begun = b.from;
      begun_is = b.from_is;
      begun_by = ground arith;
      reset = v.reset;
      reset_is = v.reset_is;
      reset_by = v.reset_by;
      few = ground arith;
      few_daily = ground arith;
      running = λ h. ground arith;
    }

pause-Inv :
    {t : ℕ} (s s' : PanicState) → t < far - 1800 → Inv t s → pause s (pos t) ≡ ok s' → Inv t s'
unfolding pause paused
pause-Inv {t} s s' small v h =
    let (cleared, e, h1) = >>=-eq-ok (unpause_if_expired s (pos t)) _ h in
    let (allowed, a, h2) = >>=-eq-ok (can_pause (reset_daily cleared (pos t)) (pos t)) _ h1 in
    let (u, c, h3) = >>=-eq-ok (check allowed (marginfi MarginfiError.pause_limit_exceeded)) _ h2 in
    let (start, st, h4) = >>=-eq-ok (extended_start (reset_daily cleared (pos t)) (pos t)) _ h3 in
    let vc = unpause_if_expired-Inv s cleared (pos t) e v in
    let vd = reset_daily-Inv cleared vc in
    let yes =
      subst (λ b. can_pause (reset_daily cleared (pos t)) (pos t) ≡ ok b) (check-eq-ok allowed _ c)
        a in
    subst (Inv t) (ok-injective h4) (
      paused-Inv (reset_daily cleared (pos t)) start vd
        (extended_start-Started t (reset_daily cleared (pos t)) start small vd st)
        (can_pause_consecutive (reset_daily cleared (pos t)) (pos t) yes)
        (reset_daily-can_pause cleared (omega arith) vc yes))

-- What a group's administrator, the clock and anyone's permissionless call make of the first state.
pub data Reached : ℕ → PanicState → Type 0 where
  starts : {t : ℕ} → Reached t initial
  waits : {t t' : ℕ} {s : PanicState} → t ≤ t' → Reached t s → Reached t' s
  pauses : {t : ℕ} {s s' : PanicState} → pause s (pos t) ≡ ok s' → Reached t s → Reached t s'
  unpauses : {t : ℕ} {s : PanicState} → Reached t s → Reached t (unpause s)
  expires :
      {t : ℕ} {s s' : PanicState}
      → unpause_if_expired s (pos t) ≡ ok s'
      → Reached t s
      → Reached t s'

Reached-Inv : {t : ℕ} {s : PanicState} → t < far - 1800 → Reached t s → Inv t s
Reached-Inv {t} small starts = initial-Inv t
Reached-Inv small (waits le r) = later-Inv le (Reached-Inv (omega arith) r)
Reached-Inv small (pauses h r) = pause-Inv _ _ small (Reached-Inv small r) h
Reached-Inv small (unpauses r) = unpause-Inv _ (Reached-Inv small r)
Reached-Inv small (expires h r) = unpause_if_expired-Inv _ _ _ h (Reached-Inv small r)

-- However a state was reached by pauses, ends of pauses and waiting, the pause counts as expired at
-- every time an hour later (before 2 ^ 62 seconds).
pub Reached-is_expired :
    (t now : ℕ) (s : PanicState)
    → Reached t s
    → t + 3600 ≤ now
    → now < far
    → is_expired s (pos now) ≡ ok true
Reached-is_expired t now s r h small = Inv-is_expired now s (Reached-Inv (omega arith) r) h small
