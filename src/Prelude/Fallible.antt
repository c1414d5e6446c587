-- ===== src/Prelude/Fallible.antt =====
-- Rust's `Result` with `?` as bind, for any error type.
use mathlib.Core.Path.{◌≡◌, refl}
use mathlib.Core.Bool.{Bool, true, false}
use mathlib.Core.Option.{Option, none, some}

pub data Result {ℓ κ} (E : Type ℓ) (A : Type κ) : Type (ℓ ⊔ κ) where
  ok : A → Result E A
  err : E → Result E A

-- `option.ok_or(e)`
abbrev pub ok_or {ℓ κ} : {E : Type ℓ} {A : Type κ} → Option A → E → Result E A
ok_or none e = err e
ok_or (some a) e = ok a

-- `if !condition { return Err(e) }`, the `require!` and `check!` macros.
abbrev pub check {ℓ} : {E : Type ℓ} → Bool → E → Result E (Unit {0})
check false failure = err failure
check true failure = ok tt

infixl 5 ◌>>◌ ◌>>=◌
-- `?` after a step whose value the rest uses.
abbrev pub ◌>>=◌ {ℓ κ μ} :
    {E : Type ℓ} {A : Type κ} {B : Type μ} → Result E A → (A → Result E B) → Result E B
err e >>= rest = err e
ok value >>= rest = rest value

-- `?` after a step that returns nothing.
abbrev pub ◌>>◌ {ℓ κ} : {E : Type ℓ} {B : Type κ} → Result E (Unit {0}) → Result E B → Result E B
step >> later = step >>= λ nothing. later

module _ {ℓ κ μ} {E : Type ℓ} {A : Type κ} {B : Type μ} where
  -- A successful chain has a successful first step.
  pub >>=-eq-ok :
      (m : Result E A) (f : A → Result E B) {b : B}
      → (m >>= f) ≡ ok b
      → (a : A) × (m ≡ ok a) × (f a ≡ ok b)
  >>=-eq-ok (err e) f h = cc
  >>=-eq-ok (ok a) f h = (a, refl, h)

module _ {ℓ κ} {E : Type ℓ} {A : Type κ} where
  pub ok-injective : {a b : A} → ◌≡◌ {A = Result E A} (ok a) (ok b) → a ≡ b
  ok-injective h = cc

module _ {ℓ} {E : Type ℓ} where
  pub check-eq-ok : (b : Bool) (e : E) → check b e ≡ ok tt → b ≡ true
  check-eq-ok true e h = refl
  check-eq-ok false e h = cc
