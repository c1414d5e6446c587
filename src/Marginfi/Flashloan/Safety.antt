-- ===== src/Marginfi/Flashloan/Safety.antt =====
-- A transaction as a sequence of steps on one account: no transaction that starts a flash loan
-- completes without ending it under a health check. `starts` and `ends` are the handlers of
-- flashloan.rs at the top level of the transaction; `other` is any other instruction, with whatever
-- it invokes. No other handler of the program sets or unsets `ACCOUNT_IN_FLASHLOAN`, and neither of
-- these two runs in an invocation.
use bot_flash_loan.Prelude.{
  ℕ, ◌+◌, ◌≤◌, ◌≡◌, inl, inr, true, false, not, Bool-cases, List, some, ok, check, ◌==◌, ◌>>=◌,
  Result, length, get_elem?, lt-length_of_get_elem?, sym, ◌∙◌, >>=-eq-ok, ok-injective, arith,
}
use mathlib.Core.Path.{subst}
use bot_flash_loan.Solana.{AccountInfo, Instruction, Pubkey}
use bot_flash_loan.Marginfi.Fixed.{Fixed}
use bot_flash_loan.Marginfi.Account.{
  MarginfiAccount, Failure, get_flag, unset_flag, account_in_flashloan, account_disabled,
  account_in_receivership, account_frozen,
}
use bot_flash_loan.Marginfi.Account.Flags.{in_flashloan, has, has-set_flag, has-unset_flag}
use bot_flash_loan.Marginfi.Sysvar.{TxContext, validate_not_cpi_by_stack_height}
use bot_flash_loan.Marginfi.Risk.{
  BankAccountWithPrice, check_account_health, check_account_init_health,
}
use bot_flash_loan.Marginfi.Flashloan.{
  check_flashloan_can_start, lending_account_start_flashloan, lending_account_end_flashloan,
}
use bot_flash_loan.Marginfi.Flashloan.Checks.{IsEnd, CanStart, check_flashloan_can_start_iff}

module _ (program_id : Pubkey) (fx : Fixed)
    (load : MarginfiAccount → List AccountInfo → Result Failure (List BankAccountWithPrice))
    (ixs : List Instruction) (key : Pubkey) where
  -- What instruction `i` of the transaction sees.
  abbrev pub at : ℕ → TxContext
  at i = record { instructions = ixs; current_index = i; stack_height = 1 }

  pub data Step (i : ℕ) (ix : Instruction) : MarginfiAccount → MarginfiAccount → Type 0 where
    starts :
        {a b : MarginfiAccount} (authority : Pubkey) (end_index : ℕ)
        → lending_account_start_flashloan program_id (at i) authority key a end_index ≡ ok b
        → Step i ix a b
    ends :
        {a b : MarginfiAccount} (authority : Pubkey) (remaining : List AccountInfo)
        → lending_account_end_flashloan fx load (at i) authority a remaining ≡ ok b
        → Step i ix a b
    other :
        {a b : MarginfiAccount}
        → ¬ IsEnd program_id key ix
        → has in_flashloan b ≡ has in_flashloan a
        → Step i ix a b

  -- The transaction completes from instruction `i` on.
  pub data Runs : ℕ → MarginfiAccount → MarginfiAccount → Type 0 where
    done : {i : ℕ} {a : MarginfiAccount} → length ixs ≤ i → Runs i a a
    next :
        {i : ℕ} {a b c : MarginfiAccount} {ix : Instruction}
        → get_elem? ixs i ≡ some ix
        → Step i ix a b
        → Runs (i + 1) b c
        → Runs i a c

  -- Instruction `j` ends the flash loan of this account.
  abbrev EndAt : ℕ → Type 0
  EndAt j = (ix : Instruction) × (get_elem? ixs j ≡ some ix) × IsEnd program_id key ix

  -- An end of the flash loan at or after instruction `i`.
  abbrev Pending : ℕ → Type 0
  Pending i = (j : ℕ) × (i ≤ j) × EndAt j

  -- The steps from instruction `i` up to, and without, instruction `j` take the account from one
  -- state to another.
  pub data Reaches (j : ℕ) : ℕ → MarginfiAccount → MarginfiAccount → Type 0 where
    reached : {a : MarginfiAccount} → Reaches j j a a
    after :
        {i : ℕ} {a b c : MarginfiAccount} {ix : Instruction}
        → get_elem? ixs i ≡ some ix
        → Step i ix a b
        → Reaches j (i + 1) b c
        → Reaches j i a c

  -- In the run from instruction `i` and state `a` to the end in state `c`, instruction `place` ended
  -- the flash loan: with the account as the run had brought it there, all of its balances were loaded
  -- outside the flash loan and passed the health check, and the run went on with that account.
  pub record Settled (i : ℕ) (a c : MarginfiAccount) : Type 0 where
    pub place : ℕ
    pub later : i ≤ place
    pub at_place : (ix : Instruction) × (get_elem? ixs place ≡ some ix)
    pub before : MarginfiAccount
    pub reaches : Reaches place i a before
    pub authority : Pubkey
    pub remaining : List AccountInfo
    pub ran :
        lending_account_end_flashloan fx load (at place) authority before remaining
        ≡ ok (unset_flag before account_in_flashloan)
    pub balances : List BankAccountWithPrice
    pub loaded : load (unset_flag before account_in_flashloan) remaining ≡ ok balances
    pub healthy : check_account_health fx load balances ≡ ok tt
    pub rest : Runs (place + 1) (unset_flag before account_in_flashloan) c

  -- What the end handler has checked.
  record Checked (a : MarginfiAccount) (remaining : List AccountInfo) : Type 0 where
    balances : List BankAccountWithPrice
    loaded : load (unset_flag a account_in_flashloan) remaining ≡ ok balances
    healthy : check_account_health fx load balances ≡ ok tt

  -- A step before the run.
  Settled-after :
      {i : ℕ} {a b c : MarginfiAccount} {ix : Instruction}
      → get_elem? ixs i ≡ some ix
      → Step i ix a b
      → Settled (i + 1) b c
      → Settled i a c
  Settled-after found step s = record {
    place = s.place;
    later = omega (arith, s.later);
    at_place = s.at_place;
    before = s.before;
    reaches = after found step s.reaches;
    authority = s.authority;
    remaining = s.remaining;
    ran = s.ran;
    balances = s.balances;
    loaded = s.loaded;
    healthy = s.healthy;
    rest = s.rest;
  }

  -- Outside a flash loan the health check is made.
  health_outside :
      (a : MarginfiAccount) (remaining : List AccountInfo)
      → has in_flashloan (unset_flag a account_in_flashloan) ≡ false
      → check_account_init_health fx load (unset_flag a account_in_flashloan) remaining ≡ ok tt
      → (load (unset_flag a account_in_flashloan) remaining >>= check_account_health fx load)
        ≡ ok tt
  unfolding check_account_init_health
  health_outside a remaining cleared h = rw cleared at h

  started :
      (i : ℕ) (a : MarginfiAccount) {b : MarginfiAccount} (authority : Pubkey) (end_index : ℕ)
      → lending_account_start_flashloan program_id (at i) authority key a end_index ≡ ok b
      → CanStart program_id (at i) key a end_index
  unfolding lending_account_start_flashloan
  started i a authority end_index h =
      let (_, _, h₁) = >>=-eq-ok (check (a.authority == authority) _) _ h in
      let (_, allowed, _) =
        >>=-eq-ok (check_flashloan_can_start program_id (at i) key a end_index) _ h₁ in
      (check_flashloan_can_start_iff program_id (at i) key a end_index).0 allowed

  started-Pending :
      (i : ℕ) (a : MarginfiAccount) {b : MarginfiAccount} (authority : Pubkey) (end_index : ℕ)
      → lending_account_start_flashloan program_id (at i) authority key a end_index ≡ ok b
      → Pending (i + 1)
  started-Pending i a authority end_index h =
      let s = started i a authority end_index h in
      (end_index, omega (arith, s.before_end), (s.end_ix, s.end_at, s.is_end))

  -- The end handler leaves the account out of the flash loan, and has checked its health.
  ended :
      (i : ℕ) (a : MarginfiAccount) {b : MarginfiAccount} (authority : Pubkey)
      (remaining : List AccountInfo)
      → lending_account_end_flashloan fx load (at i) authority a remaining ≡ ok b
      → (has in_flashloan b ≡ false) × (b ≡ unset_flag a account_in_flashloan) × Checked a remaining
  unfolding lending_account_end_flashloan
  ended i a authority remaining h =
      let (_, _, h₁) = >>=-eq-ok (check (a.authority == authority) _) _ h in
      let (_, _, h₂) = >>=-eq-ok (validate_not_cpi_by_stack_height (at i)) _ h₁ in
      let (_, _, h₃) = >>=-eq-ok (check (not (get_flag a account_disabled)) _) _ h₂ in
      let (_, _, h₄) = >>=-eq-ok (check (not (get_flag a account_in_receivership)) _) _ h₃ in
      let (_, _, h₅) = >>=-eq-ok (check (not (get_flag a account_frozen)) _) _ h₄ in
      let (_, checked, h₆) =
        >>=-eq-ok (check_account_init_health fx load (unset_flag a account_in_flashloan) remaining)
          _ h₅ in
      let cleared : has in_flashloan (unset_flag a account_in_flashloan) ≡ false =
        has-unset_flag in_flashloan in_flashloan a in
      let (bs, loaded, healthy) =
        >>=-eq-ok (load (unset_flag a account_in_flashloan) remaining) _
          (health_outside a remaining cleared checked) in
      (
        subst (λ x. has in_flashloan x ≡ false) (ok-injective h₆) cleared,
        sym (ok-injective h₆),
        record { balances = bs; loaded = loaded; healthy = healthy },
      )

  started-has :
      (i : ℕ) (a : MarginfiAccount) {b : MarginfiAccount} (authority : Pubkey) (end_index : ℕ)
      → lending_account_start_flashloan program_id (at i) authority key a end_index ≡ ok b
      → has in_flashloan b ≡ true
  unfolding lending_account_start_flashloan
  started-has i a authority end_index h =
      let (_, _, h₁) = >>=-eq-ok (check (a.authority == authority) _) _ h in
      let (_, _, h₂) =
        >>=-eq-ok (check_flashloan_can_start program_id (at i) key a end_index) _ h₁ in
      subst (λ x. has in_flashloan x ≡ true) (ok-injective h₂)
        (has-set_flag in_flashloan in_flashloan a)

  no_end_left : (i : ℕ) → length ixs ≤ i → ¬ Pending i
  no_end_left i past (j, later, (ix, found, _)) = omega (arith, lt-length_of_get_elem? ixs j found)

  end_still_later :
      (i : ℕ) {ix : Instruction}
      → get_elem? ixs i ≡ some ix
      → ¬ IsEnd program_id key ix
      → Pending i
      → Pending (i + 1)
  end_still_later i {ix} found not_end (j, later, (x, at_j, is_end)) = elim (Bool-cases (i == j)) [
    | inl here ↦ absurd (not_end (subst (IsEnd program_id key) (same_ix (ground arith)) is_end))
    | inr later_on ↦ (j, ground arith, (x, at_j, is_end))
  ]
    where
      same_ix : i ≡ j → x ≡ ix
      same_ix e = cc

  -- In a run that began out of a flash loan, or in one with its end still to come, the account is
  -- out of it at the end; and if the run began in one, the health check was made.
  Runs-Settled :
      (i : ℕ) (a c : MarginfiAccount)
      → Runs i a c
      → (has in_flashloan a ≡ true → Pending i)
      → (has in_flashloan c ≡ false) × (has in_flashloan a ≡ true → Settled i a c)
  Runs-Settled i a c (done past) pending = elim (Bool-cases (has in_flashloan a)) [
    | inl open_loan ↦ absurd (no_end_left i past (pending open_loan))
    | inr closed ↦ (closed, λ e. absurd (no_end_left i past (pending e)))
  ]
  Runs-Settled i a c (next {b = b} {ix = ix} found (starts authority end_index h) rest) pending =
      let (closed, settled) =
        Runs-Settled (i + 1) b c rest (λ _. started-Pending i a authority end_index h) in
      (
        closed,
        λ _.
            Settled-after found (starts authority end_index h)
              (settled (started-has i a authority end_index h)),
      )
  Runs-Settled i a c (next {b = b} {ix = ix} found (ends authority remaining h) rest) pending =
      let (cleared, left, checked) = ended i a authority remaining h in
      let (closed, _) = Runs-Settled (i + 1) b c rest (λ e. absurd (clash cleared e)) in
      (
        closed,
        λ _. record {
          place = i;
          later = omega arith;
          at_place = (ix, found);
          before = a;
          reaches = reached;
          authority = authority;
          remaining = remaining;
          ran =
              subst (λ x. lending_account_end_flashloan fx load (at i) authority a remaining ≡ ok x)
                left h;
          balances = checked.balances;
          loaded = checked.loaded;
          healthy = checked.healthy;
          rest = subst (λ x. Runs (i + 1) x c) left rest;
        },
      )
    where
      clash : has in_flashloan b ≡ false → has in_flashloan b ≡ true → ⊥
      clash p q = cc
  Runs-Settled i a c (next {b = b} found (other not_end same) rest) pending =
      let (closed, settled) =
        Runs-Settled (i + 1) b c rest
          (λ e. end_still_later i found not_end (pending (sym same ∙ e))) in
      (closed, λ e. Settled-after found (other not_end same) (settled (same ∙ e)))

  -- A transaction that completes, from an account that is not in a flash loan, leaves it not in a
  -- flash loan. The other instructions of the transaction do not change that flag and are not an
  -- end of this account's flash loan.
  pub Runs-not-in_flashloan :
      (a c : MarginfiAccount) → Runs 0 a c → has in_flashloan a ≡ false → has in_flashloan c ≡ false
  Runs-not-in_flashloan a c r free = (Runs-Settled 0 a c r (λ e. absurd (clash e))).0
    where
      clash : has in_flashloan a ≡ true → ⊥
      clash e = cc

  -- If an instruction starts a flash loan and the transaction completes from there, the account is
  -- not in a flash loan at the end, and a later instruction has ended it: the account as the steps
  -- up to that instruction left it, out of the flash loan, was loaded and passed the health check,
  -- and the transaction went on with it. The other instructions do not change the flag and are not an end of this
  -- account's flash loan.
  pub start_flashloan-Settled :
      (i : ℕ) (a b c : MarginfiAccount) (authority : Pubkey) (end_index : ℕ)
      → lending_account_start_flashloan program_id (at i) authority key a end_index ≡ ok b
      → Runs (i + 1) b c
      → (has in_flashloan c ≡ false) × Settled (i + 1) b c
  start_flashloan-Settled i a b c authority end_index h r =
      let (closed, settled) =
        Runs-Settled (i + 1) b c r (λ _. started-Pending i a authority end_index h) in
      (closed, settled (started-has i a authority end_index h))
