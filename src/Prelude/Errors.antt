-- ===== src/Prelude/Errors.antt =====
-- Go errors: a text, or a context that `fmt.Errorf("...: %w", err)` puts round another error. The
-- arguments of a message are left out. A run-time panic is an error of its own.
use mathlib.Core.Option.{Option, none, some}
use mathlib.Core.Path.{◌≡◌, refl}
use mathlib.Core.Logic.{◌⊎◌, inl, inr}
use Prim.Native.String.{String}
use mathlib.Core.Bool.{Bool}
use fast_vip.Prelude.Tests.{if◌then◌else◌}

infixl 5 ◌>>=◌ ◌>>◌
pub data Error : Type 0 where
  error : String → Error
  wrap : String → Error → Error
  panic : String → Error

-- What a function returns that returns a value and an error.
pub data Result {ℓ} (V : Type ℓ) : Type ℓ where
  err : Error → Result V
  ok : V → Result V

-- Go on after `if err != nil { return err }`.
abbrev pub ◌>>=◌ {ℓ κ} : {V : Type ℓ} {W : Type κ} → Result V → (V → Result W) → Result W
err e >>= next = err e
ok v >>= next = next v

abbrev pub ◌>>◌ {κ} : {W : Type κ} → Result (Unit {0}) → Result W → Result W
err e >> next = err e
ok v >> next = next

-- `if !test { return fmt.Errorf(...) }`
abbrev pub guard : Bool → String → Result (Unit {0})
guard test text = if test then ok tt else err (error text)

-- A failing call of the standard library, wrapped in a context.
abbrev pub or_error {ℓ} : {A : Type ℓ} → Option A → String → Result A
or_error none text = err (error text)
or_error (some a) text = ok a

abbrev pub in_context {ℓ} : {A : Type ℓ} → String → Result A → Result A
in_context text (ok a) = ok a
in_context text (err e) = err (wrap text e)

-- The same for a bare `error`, where `none` is nil.
abbrev pub wrap_error : String → Option Error → Option Error
wrap_error text none = none
wrap_error text (some e) = some (wrap text e)

pub Result-cases {ℓ} :
    {A : Type ℓ} (r : Result A) → ((a : A) × (r ≡ ok a)) ⊎ ((e : Error) × (r ≡ err e))
Result-cases (ok a) = inl (a, refl)
Result-cases (err e) = inr (e, refl)
