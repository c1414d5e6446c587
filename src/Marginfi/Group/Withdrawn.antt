-- ===== src/Marginfi/Group/Withdrawn.antt =====
-- The daily limit on what deleverages withdraw (Group).
use bot_flash_loan.Prelude.{
  ℕ, ◌+◌, ◌≤◌, ◌<◌, ◌≡◌, refl, sym, ap, ◌∙◌, true, not, ◌&&◌, List, [], ◌∷◌, Result, ok, check,
  ◌>>=◌, >>=-eq-ok, ok-injective, Every, every_next, ◌==◌, ltb, min, arith,
}
use mathlib.Core.Path.{subst}
use bot_flash_loan.Prelude.Int.{ℤ, pos, ltb_ℤ}
use bot_flash_loan.Prelude.Machine.{saturating_sub_i64}
use bot_flash_loan.Marginfi.Fixed.{Fixed, I80F48}
use bot_flash_loan.Marginfi.Account.{Failure}
use bot_flash_loan.Marginfi.Interest.{u32_max}
use bot_flash_loan.Marginfi.Group.{
  WithdrawWindowCache, MarginfiGroup, reset_window, withdraw_in_window, update_withdrawn_equity,
  daily_reset_interval,
}

-- `now` is less than a day after the last reset of the window.
unfoldable pub InWindow : WithdrawWindowCache → ℤ → Type 0
InWindow c now =
    ltb_ℤ (saturating_sub_i64 now c.last_daily_reset_timestamp) (pos daily_reset_interval) ≡ true

reset_window-InWindow :
    (c : WithdrawWindowCache) (now : ℤ) → InWindow c now → reset_window now c ≡ c
unfolding reset_window InWindow
reset_window-InWindow c now h = rw (h) refl

-- A withdrawal that is accepted under a limit, and does not saturate, adds up below the limit.
record Added (dollars : ℕ) (c c' : WithdrawWindowCache) : Type 0 where
  sum : c'.withdrawn_today ≡ c.withdrawn_today + dollars
  within : c'.withdrawn_today ≤ c.daily_limit
  same_limit : c'.daily_limit ≡ c.daily_limit
  same_reset : c'.last_daily_reset_timestamp ≡ c.last_daily_reset_timestamp

withdraw_in_window-Added :
    (dollars : ℕ) (c c' : WithdrawWindowCache)
    → 0 < c.daily_limit
    → c.daily_limit < u32_max
    → withdraw_in_window dollars c ≡ ok c'
    → Added dollars c c'
unfolding withdraw_in_window
withdraw_in_window-Added dollars c c' p small h =
    let withdrawn = min (c.withdrawn_today + dollars) u32_max in
    let (_, e, h₁) =
      >>=-eq-ok (check (not (not (c.daily_limit == 0) && ltb c.daily_limit withdrawn)) _) _ h in
    subst (Added dollars c) (ok-injective h₁) (record {
      sum = ground (arith, e, p, small);
      within = ground (arith, e, p);
      same_limit = refl;
      same_reset = refl;
    })

abbrev pub window : MarginfiGroup → WithdrawWindowCache
window g = g.deleverage_withdraw_window_cache

module _ (fx : Fixed) where
  -- Withdrawals of deleverages one after the other, each with its equity and its time.
  unfoldable pub withdraw_each : List (I80F48 × ℤ) → MarginfiGroup → Result Failure MarginfiGroup
  withdraw_each [] g = ok g
  withdraw_each (w ∷ ws) g = do g' ← update_withdrawn_equity fx w.0 w.1 g; withdraw_each ws g'

  unfoldable pub dollars_of : List (I80F48 × ℤ) → ℕ
  dollars_of [] = 0
  dollars_of (w ∷ ws) = fx.to_u32 w.0 + dollars_of ws

  update-Added :
      (equity : I80F48) (now : ℤ) (g g' : MarginfiGroup)
      → 0 < (window g).daily_limit
      → (window g).daily_limit < u32_max
      → InWindow (window g) now
      → update_withdrawn_equity fx equity now g ≡ ok g'
      → Added (fx.to_u32 equity) (window g) (window g')
  unfolding update_withdrawn_equity
  update-Added equity now g g' p small inside h =
      let (c, e, h₁) =
        >>=-eq-ok
          (withdraw_in_window (fx.to_u32 equity)
            (reset_window now g.deleverage_withdraw_window_cache))
          _ h in
      subst (λ x. Added (fx.to_u32 equity) (window g) (window x)) (ok-injective h₁)
        (withdraw_in_window-Added (fx.to_u32 equity) (window g) c p small (
          ap (withdraw_in_window (fx.to_u32 equity))
            (sym (reset_window-InWindow (window g) now inside))
          ∙ e))

  -- Deleverage withdrawals that are all accepted, less than a day after the last reset, add up: what
  -- the group has counted as withdrawn today grows by exactly their whole dollars, and is not above
  -- the daily limit if it was not before. The limit is set, and below the greatest number of 32 bits.
  pub withdraw_each-within :
      (ws : List (I80F48 × ℤ)) (g g' : MarginfiGroup)
      → 0 < (window g).daily_limit
      → (window g).daily_limit < u32_max
      → (window g).withdrawn_today ≤ (window g).daily_limit
      → Every (λ w. InWindow (window g) w.1) ws
      → withdraw_each ws g ≡ ok g'
      → ((window g').withdrawn_today ≡ (window g).withdrawn_today + dollars_of ws)
        × ((window g').withdrawn_today ≤ (window g).daily_limit)
  unfolding withdraw_each dollars_of InWindow
  withdraw_each-within [] g g' p small low inside h =
      subst
        (λ x.
          ((window x).withdrawn_today ≡ (window g).withdrawn_today + 0)
          × ((window x).withdrawn_today ≤ (window g).daily_limit))
        (ok-injective h) (omega arith, low)
  withdraw_each-within (w ∷ ws) g g' p small low (every_next here inside) h =
      let (g₁, e, h₁) = >>=-eq-ok (update_withdrawn_equity fx w.0 w.1 g) _ h in
      let a = update-Added w.0 w.1 g g₁ p small here e in
      let (sum, within) =
        withdraw_each-within ws g₁ g' (omega (arith, p, a.same_limit))
          (omega (arith, small, a.same_limit)) (omega (arith, a.within, a.same_limit))
          (subst
            (λ t.
              Every (λ w. ltb_ℤ (saturating_sub_i64 w.1 t) (pos daily_reset_interval) ≡ true) ws)
            (sym a.same_reset) inside)
          h₁ in
      (omega (arith, sum, a.sum), omega (arith, within, a.same_limit))
