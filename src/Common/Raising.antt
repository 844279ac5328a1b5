-- ===== src/Common/Raising.antt =====
-- A call returns a value or raises. The source tells the exceptions apart by their class alone.
use mathlib.Core.Path.{◌≡◌, refl}
use mathlib.Core.Bool.{Bool, true, false}

pub data Exception : Type 0 where
  runtime_error value_error key_error type_error index_error overflow_error not_implemented :
      Exception

-- `loops` stands for a `while` loop that has used up its fuel in the model.
pub data Outcome {ℓ} (A : Type ℓ) : Type ℓ where
  ok : A → Outcome A
  raise : Exception → Outcome A
  loops : Outcome A

infixl 5 ◌>>=◌
abbrev pub ◌>>=◌ {ℓ κ} : {A : Type ℓ} {B : Type κ} → Outcome A → (A → Outcome B) → Outcome B
loops >>= next = loops
raise e >>= next = raise e
ok value >>= next = next value

infixl 5 ◌>>◌
abbrev pub ◌>>◌ {ℓ κ} : {A : Type ℓ} {B : Type κ} → Outcome A → Outcome B → Outcome B
first >> second = first >>= λ _. second

-- `if not test: raise ValueError`.
abbrev pub require : Bool → Outcome (Unit {0})
require true = ok tt
require false = raise value_error

-- A chain of calls that returns: each of its calls does.
pub returned {ℓ κ} :
    {A : Type ℓ} {B : Type κ} (call : Outcome A) (next : A → Outcome B) {result : B}
    → (call >>= next) ≡ ok result
    → (value : A) × (call ≡ ok value) × (next value ≡ ok result)
returned loops next h = cc
returned (raise e) next h = cc
returned (ok value) next h = (value, refl, h)
