-- ===== src/Base/Outcomes.antt =====
-- The results of calls.
use mathlib.Core.Path.{◌≡◌, refl}
use mathlib.Core.Logic.{◌⊎◌, inl, inr}
use mathlib.Core.Bool.{Bool, true, false}
use ada_os.Base.Tests.{if◌then◌else◌}

-- What a call of the kernel comes to. `panicked` is a call of `panic`, which does not return;
-- `spinning` is a loop that used up the fuel which the model gives it; `undefined` is an operation
-- that C leaves undefined.
pub data Outcome {ℓ} (A : Type ℓ) : Type ℓ where
  done : A → Outcome A
  panicked : Outcome A
  spinning : Outcome A
  undefined : Outcome A

infixl 5 ◌>>=◌
abbrev pub ◌>>=◌ {ℓ κ} : {A : Type ℓ} {B : Type κ} → Outcome A → (A → Outcome B) → Outcome B
done a >>= f = f a
panicked >>= f = panicked
spinning >>= f = spinning
undefined >>= f = undefined

-- The call returns a value or panics; none of its loops runs out of fuel.
abbrev pub Returns {ℓ} : {A : Type ℓ} → Outcome A → Type ℓ
Returns {A} r = ((a : A) × (r ≡ done a)) ⊎ (r ≡ panicked)

pub >>=-Returns {ℓ κ} :
    {A : Type ℓ} {B : Type κ} (r : Outcome A) (f : A → Outcome B)
    → Returns r
    → ((a : A) → Returns (f a))
    → Returns (r >>= f)
>>=-Returns r f (inl (a, e)) k = rw e (k a)
>>=-Returns r f (inr e) k = rw e (inr refl)

pub done-Returns {ℓ} : {A : Type ℓ} (a : A) → Returns (done a)
done-Returns a = inl (a, refl)

pub if-Returns {ℓ} :
    {A : Type ℓ} (b : Bool) {x y : Outcome A} → Returns x → Returns y → Returns (if b then x else y)
if-Returns true h k = h
if-Returns false h k = k

-- The call panics, or returns a value of which `P` holds.
abbrev pub Ends {ℓ κ} : {A : Type ℓ} → (A → Type κ) → Outcome A → Type (ℓ ⊔ κ)
Ends {A} P r = (r ≡ panicked) ⊎ ((a : A) × (r ≡ done a) × P a)

pub done-Ends {ℓ κ} : {A : Type ℓ} (P : A → Type κ) (a : A) → P a → Ends P (done a)
done-Ends P a h = inr (a, refl, h)

pub >>=-Ends {ℓ κ} :
    {A B : Type ℓ} (P : A → Type κ) (Q : B → Type κ) (r : Outcome A) (f : A → Outcome B)
    → Ends P r
    → ((a : A) → P a → Ends Q (f a))
    → Ends Q (r >>= f)
>>=-Ends P Q r f (inl e) k = rw e (inl refl)
>>=-Ends P Q r f (inr (a, e, p)) k = rw e (k a p)

pub if-Ends {ℓ κ} :
    {A : Type ℓ} (Q : A → Type κ) (b : Bool) {x y : Outcome A}
    → (b ≡ true → Ends Q x)
    → (b ≡ false → Ends Q y)
    → Ends Q (if b then x else y)
if-Ends Q true h k = h refl
if-Ends Q false h k = k refl

pub Returns-Ends {ℓ} : {A : Type ℓ} (r : Outcome A) → Returns r → Ends (λ _. Unit {0}) r
Returns-Ends r (inl (a, e)) = inr (a, e, tt)
Returns-Ends r (inr e) = inl e

pub map-Ends {ℓ κ} :
    {A : Type ℓ} (P Q : A → Type κ) (r : Outcome A) → ((a : A) → P a → Q a) → Ends P r → Ends Q r
map-Ends P Q r f (inl e) = inl e
map-Ends P Q r f (inr (a, e, p)) = inr (a, e, f a p)

-- The call does something that C leaves undefined, panics, or returns a value of which `P` holds.
abbrev pub Settles {ℓ κ} : {A : Type ℓ} → (A → Type κ) → Outcome A → Type (ℓ ⊔ κ)
Settles P r = (r ≡ undefined) ⊎ Ends P r

pub Ends-Settles {ℓ κ} :
    {A B : Type ℓ} (P : A → Type κ) (Q : B → Type κ) (r : Outcome A) (f : A → Outcome B)
    → Ends P r
    → ((a : A) → P a → Settles Q (f a))
    → Settles Q (r >>= f)
Ends-Settles P Q r f (inl e) k = rw e (inr (inl refl))
Ends-Settles P Q r f (inr (a, e, p)) k = rw e (k a p)

pub >>=-Settles {ℓ κ} :
    {A B : Type ℓ} (P : A → Type κ) (Q : B → Type κ) (r : Outcome A) (f : A → Outcome B)
    → Settles P r
    → ((a : A) → P a → Settles Q (f a))
    → Settles Q (r >>= f)
>>=-Settles P Q r f (inl e) k = rw e (inl refl)
>>=-Settles P Q r f (inr h) k = Ends-Settles P Q r f h k

pub map-Settles {ℓ κ} :
    {A : Type ℓ} (P Q : A → Type κ) (r : Outcome A)
    → ((a : A) → P a → Q a)
    → Settles P r
    → Settles Q r
map-Settles P Q r f (inl e) = inl e
map-Settles P Q r f (inr h) = inr (map-Ends P Q r f h)

-- What a call returns is what it returned.
pub run-Ends {ℓ} :
    {A : Type ℓ} (P : A → Type ℓ) (r : Outcome A)
    → Ends P r
    → Ends (λ (a : A). (r ≡ done a) × P a) r
run-Ends P r (inl e) = inl e
run-Ends P r (inr (a, e, p)) = inr (a, e, (e, p))

pub run-Settles {ℓ} :
    {A : Type ℓ} (P : A → Type ℓ) (r : Outcome A)
    → Settles P r
    → Settles (λ (a : A). (r ≡ done a) × P a) r
run-Settles P r (inl e) = inl e
run-Settles P r (inr h) = inr (run-Ends P r h)
