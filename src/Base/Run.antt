-- ===== src/Base/Run.antt =====
-- How a run of kernel code ends. `panic` (kernel/panic.c) and the loops `while(1);` never come
-- back, so an outcome other than `ok` is final.
use Prim.Native.String.{String}
use mathlib.Core.Bool.{Bool, true, false}
use mathlib.Core.Path.{◌≡◌, subst, ap}
use mathlib.Core.Logic.{◌≢◌}
use mathlib.Core.Option.{Option, none, some}

pub data Outcome {ℓ} (A : Type ℓ) : Type ℓ where
  ok : A → Outcome A
  -- `panic(message)`: the message is logged, interrupts are off, and the kernel hangs.
  panic : String → Outcome A
  -- a `while(1);` of the source, or a page fault, whose handler is such a loop
  hang : Outcome A
  -- the model's own: a loop was given too few rounds
  out_of_fuel : Outcome A

infixl 5 ◌>>=◌ ◌>>◌
abbrev pub ◌>>=◌ {ℓ κ} : {A : Type ℓ} {B : Type κ} → Outcome A → (A → Outcome B) → Outcome B
ok a >>= f = f a
panic s >>= f = panic s
hang >>= f = hang
out_of_fuel >>= f = out_of_fuel

abbrev pub ◌>>◌ {ℓ} : {A : Type ℓ} → Outcome (Unit {0}) → Outcome A → Outcome A
m >> n = m >>= λ _. n

-- `if (test) panic(message);`
abbrev pub panic_if : Bool → String → Outcome (Unit {0})
panic_if true message = panic message
panic_if false message = ok tt

-- `if (there is no value) panic(message);`
abbrev pub expect {ℓ} : {A : Type ℓ} → Option A → String → Outcome A
expect none message = panic message
expect (some a) message = ok a

-- If a run returns, what it returns has the property.
abbrev pub Ensures {ℓ κ} : {A : Type ℓ} → (A → Type κ) → Outcome A → Type κ
Ensures P (ok a) = P a
Ensures P (panic message) = Unit
Ensures P hang = Unit
Ensures P out_of_fuel = Unit

pub Ensures-then {ℓ κ ι μ} :
    {A : Type ℓ} {B : Type κ} (P : A → Type ι) (Q : B → Type μ) (r : Outcome A) (f : A → Outcome B)
    → Ensures P r
    → ((a : A) → P a → Ensures Q (f a))
    → Ensures Q (r >>= f)
Ensures-then P Q (ok a) f here go = go a here
Ensures-then P Q (panic message) f here go = tt
Ensures-then P Q hang f here go = tt
Ensures-then P Q out_of_fuel f here go = tt

pub Ensures-ok {ℓ κ} :
    {A : Type ℓ} (P : A → Type κ) (r : Outcome A) (a : A) → Ensures P r → r ≡ ok a → P a
Ensures-ok P r a here e = subst (Ensures P) e here

pub Ensures-weaken {ℓ κ ι} :
    {A : Type ℓ} (P : A → Type κ) (Q : A → Type ι) (r : Outcome A)
    → Ensures P r
    → ((a : A) → P a → Q a)
    → Ensures Q r
Ensures-weaken P Q (ok a) here go = go a here
Ensures-weaken P Q (panic message) here go = tt
Ensures-weaken P Q hang here go = tt
Ensures-weaken P Q out_of_fuel here go = tt

pub Ensures-anything {ℓ} : {A : Type ℓ} (r : Outcome A) → Ensures (λ (a : A). Unit {0}) r
Ensures-anything (ok a) = tt
Ensures-anything (panic message) = tt
Ensures-anything hang = tt
Ensures-anything out_of_fuel = tt

-- What a run that returns returns.
pub ok-injective {ℓ} : {A : Type ℓ} {a b : A} → ok a ≡ ok b → a ≡ b
ok-injective {A = A} {a = a} e =
    ap (λ r. elim r as (λ x. A) [ ok x ↦ x | panic message ↦ a | hang ↦ a | out_of_fuel ↦ a ]) e

pub panic-ne_ok {ℓ} : {A : Type ℓ} {message : String} {a : A} → panic message ≢ ok a
panic-ne_ok e = cc
