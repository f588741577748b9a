-- ===== src/Prelude/Calls.antt =====
-- How a C++ call ends: it returns, it throws, or it leaves the memory that it may touch.
use mathlib.Core.Path.{◌≡◌, refl, subst}

-- `length_error` is std::length_error, `out_of_range` std::out_of_range; `fault` is an access out of
-- bounds or through a pointer that is dangling or null.
pub data Outcome {ℓ} (A : Type ℓ) : Type ℓ where
  ok : A → Outcome A
  length_error : Outcome A
  out_of_range : Outcome A
  fault : Outcome A

infixl 5 ◌>>=◌
abbrev pub ◌>>=◌ {ℓ κ} : {A : Type ℓ} {B : Type κ} → Outcome A → (A → Outcome B) → Outcome B
ok a >>= f = f a
length_error >>= f = length_error
out_of_range >>= f = out_of_range
fault >>= f = fault

pub ok-injective {ℓ} : {A : Type ℓ} (a b : A) → ok a ≡ ok b → a ≡ b
ok-injective a b e = cc

pub data Never {κ} : Type κ where

pub Never-elim {κ ν} : {A : Type ν} → Never {κ} → A
Never-elim h = elim h [ ]

-- The call stays in its memory, and what it returns, if it does not throw, satisfies `P`.
abbrev pub Safe {ℓ κ} : {A : Type ℓ} → (A → Type κ) → Outcome A → Type κ
Safe P (ok a) = P a
Safe P length_error = Unit
Safe P out_of_range = Unit
Safe P fault = Never

pub Safe-bind {ℓ κ μ ν} :
    {A : Type ℓ} {B : Type κ} (P : A → Type μ) (Q : B → Type ν) (m : Outcome A) (f : A → Outcome B)
    → Safe P m
    → ((a : A) → P a → Safe Q (f a))
    → Safe Q (m >>= f)
Safe-bind P Q (ok a) f h k = k a h
Safe-bind P Q length_error f h k = tt
Safe-bind P Q out_of_range f h k = tt
Safe-bind P Q fault f h k = Never-elim h

pub Safe-ok {ℓ κ} :
    {A : Type ℓ} (P : A → Type κ) (m : Outcome A) (a : A) → m ≡ ok a → Safe P m → P a
Safe-ok P m a e h = subst (Safe P) e h

-- What the call returns, if it returns, satisfies `P`.
abbrev pub Ends {ℓ κ} : {A : Type ℓ} → (A → Type κ) → Outcome A → Type κ
Ends P (ok a) = P a
Ends P length_error = Unit
Ends P out_of_range = Unit
Ends P fault = Unit

pub Ends-bind {ℓ κ ν} :
    {A : Type ℓ} {B : Type κ} (Q : B → Type ν) (m : Outcome A) (f : A → Outcome B)
    → ((a : A) → m ≡ ok a → Ends Q (f a))
    → Ends Q (m >>= f)
Ends-bind Q (ok a) f k = k a refl
Ends-bind Q length_error f k = tt
Ends-bind Q out_of_range f k = tt
Ends-bind Q fault f k = tt

pub Ends-ok {ℓ κ} :
    {A : Type ℓ} (P : A → Type κ) (m : Outcome A) (a : A) → m ≡ ok a → Ends P m → P a
Ends-ok P m a e h = subst (Ends P) e h

pub Ends-map {ℓ κ ν} :
    {A : Type ℓ} (P : A → Type κ) (Q : A → Type ν) (m : Outcome A)
    → ((a : A) → P a → Q a)
    → Ends P m
    → Ends Q m
Ends-map P Q (ok a) f h = f a h
Ends-map P Q length_error f h = tt
Ends-map P Q out_of_range f h = tt
Ends-map P Q fault f h = tt

-- Where two calls return, so does the first.
pub >>=-eq-ok {ℓ κ} :
    {A : Type ℓ} {B : Type κ} (m : Outcome A) (f : A → Outcome B) (b : B)
    → (m >>= f) ≡ ok b
    → (a : A) × (m ≡ ok a) × (f a ≡ ok b)
>>=-eq-ok (ok a) f b h = (a, refl, h)
>>=-eq-ok length_error f b h = cc
>>=-eq-ok out_of_range f b h = cc
>>=-eq-ok fault f b h = cc
