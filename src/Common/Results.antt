-- ===== src/Common/Results.antt =====
-- A call that returns or throws an `Error` with a message.
use Prim.Native.String.{String}
use mathlib.Core.Path.{◌≡◌, refl}
use mathlib.Core.Logic.{◌⊎◌, inl, inr}
use mathlib.Core.Bool.{Bool, true, false}
use mathlib.Core.Option.{Option, none, some}

pub data Result {ℓ} (A : Type ℓ) : Type ℓ where
  ok : A → Result A
  throw : String → Result A

infixl 5 ◌>>=◌ ◌>>◌
abbrev pub ◌>>=◌ {ℓ κ} : {A : Type ℓ} {B : Type κ} → Result A → (A → Result B) → Result B
ok a >>= f = f a
throw message >>= f = throw message

abbrev pub ◌>>◌ {ℓ} : {B : Type ℓ} → Result (Unit {0}) → Result B → Result B
m >> k = m >>= λ _. k

-- `if (bad) throw new Error(message);`
abbrev pub reject_if : Bool → String → Result (Unit {0})
reject_if true message = throw message
reject_if false message = ok tt

-- `if (!value) throw new Error(message);`
abbrev pub require {ℓ} : {A : Type ℓ} → Option A → String → Result A
require none message = throw message
require (some a) message = ok a

pub ok_inj {ℓ} : {A : Type ℓ} (a b : A) → ok a ≡ ok b → a ≡ b
ok_inj a b e = cc

module _ {ℓ κ} {A : Type ℓ} {B : Type κ} where
  -- What a chain that returns went through.
  pub bind-ok :
      (r : Result A) (f : A → Result B) (b : B)
      → (r >>= f) ≡ ok b
      → (a : A) × (r ≡ ok a) × (f a ≡ ok b)
  bind-ok (ok a) f b h = (a, refl, h)
  bind-ok (throw m) f b h = cc

pub Result-cases {ℓ} :
    {A : Type ℓ} (r : Result A)
    → ((a : A) × (r ≡ ok a)) ⊎ ((message : String) × (r ≡ throw message))
Result-cases (ok a) = inl (a, refl)
Result-cases (throw message) = inr (message, refl)
