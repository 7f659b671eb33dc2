-- ===== src/Common/Options.antt =====
-- Chains of computations that may give no result.
use mathlib.Core.Bool.{Bool, true, false}
use if2230_2023_oshiete.Common.Tests.{if◌then◌else◌}
use mathlib.Core.Option.{Option, none, some}
use mathlib.Core.Path.{◌≡◌, refl, subst}

infixl 5 ◌>>=◌
abbrev pub ◌>>=◌ {ℓ κ} : {A : Type ℓ} {B : Type κ} → Option A → (A → Option B) → Option B
none >>= f = none
some a >>= f = f a

-- A property of the result, if there is one.
abbrev pub AllOf {ℓ κ} : {A : Type ℓ} → (A → Type κ) → Option A → Type κ
AllOf P none = Unit
AllOf P (some a) = P a

pub AllOf-bind {ℓ κ μ ν} :
    {A : Type ℓ} {B : Type κ} (Q : A → Type μ) (P : B → Type ν) (o : Option A) (f : A → Option B)
    → AllOf Q o
    → ((a : A) → Q a → AllOf P (f a))
    → AllOf P (o >>= f)
AllOf-bind Q P none f h more = tt
AllOf-bind Q P (some a) f h more = more a h

-- With no property of the first result.
pub AllOf-then {ℓ κ ν} :
    {A : Type ℓ} {B : Type κ} (P : B → Type ν) (o : Option A) (f : A → Option B)
    → ((a : A) → AllOf P (f a))
    → AllOf P (o >>= f)
AllOf-then P none f more = tt
AllOf-then P (some a) f more = more a

pub AllOf-some {ℓ κ} :
    {A : Type ℓ} (P : A → Type κ) (o : Option A) (a : A) → o ≡ some a → AllOf P o → P a
AllOf-some P o a e h = subst (AllOf P) e h

pub AllOf-if {ℓ κ} :
    {A : Type ℓ} (P : A → Type κ) (b : Bool) (t f : Option A)
    → AllOf P t
    → AllOf P f
    → AllOf P (if b then t else f)
AllOf-if P true t f ht hf = ht
AllOf-if P false t f ht hf = hf

pub if-some {ℓ} :
    {A : Type ℓ} (b : Bool) (x y : A) → (if b then some x else some y) ≡ some (if b then x else y)
if-some true x y = refl
if-some false x y = refl
