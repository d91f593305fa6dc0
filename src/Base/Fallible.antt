-- ===== src/Base/Fallible.antt =====
-- Code that may throw an exception which nothing catches: `none` is the thrown exception.
use mathlib.Core.Path.{ap, ◌≡◌, refl, subst}
use io_trepublic_plus.Base.Tests.{if◌then◌else◌}
use mathlib.Core.Logic.{◌↔◌}
use mathlib.Core.Bool.{Bool, true, false}
use mathlib.Core.Option.{Option, none, some}

infixl 5 ◌>>=◌ ◌>>◌
abbrev pub ◌>>=◌ {ℓ κ} : {A : Type ℓ} {B : Type κ} → Option A → (A → Option B) → Option B
none >>= f = none
some a >>= f = f a

abbrev pub ◌>>◌ {ℓ} : {B : Type ℓ} → Option (Unit {0}) → Option B → Option B
m >> k = m >>= λ _. k

-- Goes on if the test holds, and throws otherwise.
abbrev pub require : Bool → Option (Unit {0})
require true = some tt
require false = none

pub >>=_at {ℓ κ} :
    {A : Type ℓ} {B : Type κ} {o : Option A} {a : A} (f : A → Option B)
    → o ≡ some a
    → (o >>= f) ≡ f a
>>=_at f e = ap (λ o. o >>= f) e

pub >>=-eq-some {ℓ κ} :
    {A : Type ℓ} {B : Type κ} (m : Option A) (f : A → Option B) {b : B}
    → (m >>= f) ≡ some b
    → (a : A) × (m ≡ some a) × (f a ≡ some b)
>>=-eq-some none f h = cc
>>=-eq-some (some a) f h = (a, refl, h)

pub some_inj {ℓ} : {A : Type ℓ} {a b : A} → some a ≡ some b → a ≡ b
some_inj h = cc

pub >>=_assoc {ℓ κ μ} :
    {A : Type ℓ} {B : Type κ} {C : Type μ} (m : Option A) (f : A → Option B) (g : B → Option C)
    → (m >>= f >>= g) ≡ (m >>= λ a. f a >>= g)
>>=_assoc none f g = refl
>>=_assoc (some a) f g = refl

pub >>=_some {ℓ} : {A : Type ℓ} (m : Option A) → (m >>= some) ≡ m
>>=_some none = refl
>>=_some (some a) = refl

-- Code that throws nothing itself throws exactly where what it goes on from does.
pub >>=_none_iff {ℓ κ} :
    {A : Type ℓ} {B : Type κ} (o : Option A) (f : A → B)
    → ((o >>= λ a. some (f a)) ≡ none) ↔ (o ≡ none)
>>=_none_iff none f = (λ h. refl, λ h. refl)
>>=_none_iff (some a) f = (λ h. cc, λ h. cc)

-- Two ways to go on that agree on what comes out.
pub >>=_congr {ℓ κ} :
    {A : Type ℓ} {B : Type κ} (o : Option A) (f g : A → Option B)
    → ((a : A) → o ≡ some a → f a ≡ g a)
    → (o >>= f) ≡ (o >>= g)
>>=_congr none f g h = refl
>>=_congr (some a) f g h = h a refl

-- What holds of the result of code, wherever it returns.
abbrev pub Returns {ℓ κ} : {A : Type ℓ} → (A → Type κ) → Option A → Type (ℓ ⊔ κ)
Returns {A = A} P o = (a : A) → o ≡ some a → P a

module _ {ℓ κ} {A : Type ℓ} (P : A → Type κ) where
  pub Returns-some : (a : A) → P a → Returns P (some a)
  Returns-some a h b e = subst P (some_inj e) h

  pub Returns-none : Returns P none
  Returns-none a e = cc

  pub Returns-bind {μ} :
      {B : Type μ} (o : Option B) (f : B → Option A)
      → ((b : B) → o ≡ some b → Returns P (f b))
      → Returns P (o >>= f)
  Returns-bind none f k a e = cc
  Returns-bind (some b) f k a e = k b refl a e

  pub Returns-if :
      (b : Bool) (o p : Option A) → Returns P o → Returns P p → Returns P (if b then o else p)
  Returns-if true o p h k = h
  Returns-if false o p h k = k
