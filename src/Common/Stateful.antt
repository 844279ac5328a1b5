-- ===== src/Common/Stateful.antt =====
-- Methods of an object: what they return or raise, and the object afterwards.
use mathlib.Core.Bool.{Bool}
use package.spectracuda.Common.Raising.{Outcome, ok, raise, loops, require}

abbrev pub Method {ℓ κ} : Type ℓ → Type κ → Type (ℓ ⊔ κ)
Method S A = S → Outcome A × S

-- An exception leaves the object as it is where it is raised.
abbrev pub continue_with {ℓ κ ν} :
    {S : Type ℓ} {A : Type κ} {B : Type ν} → Outcome A × S → (A → Method S B) → Outcome B × S
continue_with (ok a, s) next = next a s
continue_with (raise e, s) next = (raise e, s)
continue_with (loops, s) next = (loops, s)

infixl 5 ◌>>=◌ ◌>>◌
abbrev pub ◌>>=◌ {ℓ κ ν} :
    {S : Type ℓ} {A : Type κ} {B : Type ν} → Method S A → (A → Method S B) → Method S B
◌>>=◌ m next s = continue_with (m s) next

abbrev pub ◌>>◌ {ℓ κ ν} :
    {S : Type ℓ} {A : Type κ} {B : Type ν} → Method S A → Method S B → Method S B
◌>>◌ m next s = continue_with (m s) (λ _. next)

abbrev pub return {ℓ κ} : {S : Type ℓ} {A : Type κ} → A → Method S A
return a s = (ok a, s)

-- A call that does not touch the object.
abbrev pub lift {ℓ κ} : {S : Type ℓ} {A : Type κ} → Outcome A → Method S A
lift outcome s = (outcome, s)

abbrev pub read {ℓ κ} : {S : Type ℓ} {A : Type κ} → (S → A) → Method S A
read f s = (ok (f s), s)

abbrev pub modify {ℓ} : {S : Type ℓ} → (S → S) → Method S (Unit {0})
modify f s = (ok tt, f s)

-- `if not test: raise ValueError`
abbrev pub check {ℓ} : {S : Type ℓ} → Bool → Method S (Unit {0})
check test s = (require test, s)
