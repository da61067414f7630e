-- ===== src/Base/Outcome.antt =====
-- What a call ends in: a value, or the exception that it throws. `undefined` stands for behaviour
-- that C++ leaves undefined, such as a read through an end iterator; `out_of_fuel` is a loop that
-- has not ended within its fuel.
use mathlib.Core.Path.{◌≡◌, refl}
use mathlib.Core.Logic.{◌⊎◌, inl, inr}
use mathlib.Core.Bool.{Bool, true, false}
use mathlib.Core.Option.{Option, none, some}

pub data Error : Type 0 where
  assertion undefined out_of_fuel unlinkable_block duplicate_signature : Error
  invalid_committee_approval missing_other missing_active missing_owner irrelevant_signature
        black_swan key_not_found :
      Error

-- An exception that is thrown, or the value that is returned.
pub data Result {ℓ} (A : Type ℓ) : Type ℓ where
  err : Error → Result A
  ok : A → Result A

-- `FC_ASSERT` and `GRAPHENE_ASSERT`.
abbrev pub guard : Bool → Error → Result (Unit {0})
guard false thrown = err thrown
guard true thrown = ok tt

-- One call after another.
infixl 5 ◌>>=◌ ◌>>◌
abbrev pub ◌>>=◌ {ℓ κ} : {A : Type ℓ} {B : Type κ} → Result A → (A → Result B) → Result B
err thrown >>= next = err thrown
ok value >>= next = next value

abbrev pub ◌>>◌ {ℓ} : {B : Type ℓ} → Result (Unit {0}) → Result B → Result B
call >> next = call >>= λ _. next

abbrev pub or_fail {ℓ} : {A : Type ℓ} → Option A → Error → Result A
or_fail none e = err e
or_fail (some a) e = ok a

-- Where a sequence has a value, so has its first call.
pub >>=-eq-ok {ℓ κ} :
    {A : Type ℓ} {B : Type κ} (call : Result A) (next : A → Result B) {value : B}
    → (call >>= next) ≡ ok value
    → (first : A) × (call ≡ ok first) × (next first ≡ ok value)
>>=-eq-ok (err thrown) next e = cc
>>=-eq-ok (ok first) next e = (first, refl, e)

pub ok-injective {ℓ} : {A : Type ℓ} {a b : A} → ok a ≡ ok b → a ≡ b
ok-injective e = cc

-- The value of a call, where it has one.
abbrev pub ok_or {ℓ} : {A : Type ℓ} → A → Result A → A
ok_or d (ok a) = a
ok_or d (err e) = d

-- What a call's value satisfies, if it has one; `Q` is what its exception satisfies.
abbrev pub Post {ℓ κ} : {A : Type ℓ} → (Error → Type κ) → (A → Type κ) → Result A → Type κ
Post Q P (ok a) = P a
Post Q P (err e) = Q e

-- The rule for a sequence of two calls.
pub Post-bind :
    {A B : Type 0} (Q : Error → Type 0) (P : A → Type 0) (R : B → Type 0) (m : Result A)
    (f : A → Result B)
    → Post Q P m
    → ((a : A) → P a → Post Q R (f a))
    → Post Q R (m >>= f)
Post-bind Q P R (ok a) f h k = k a h
Post-bind Q P R (err e) f h k = h

pub Post-map :
    {A : Type 0} (Q : Error → Type 0) (P R : A → Type 0) (m : Result A)
    → ((a : A) → P a → R a)
    → Post Q P m
    → Post Q R m
Post-map Q P R (ok a) f h = f a h
Post-map Q P R (err e) f h = h

pub Post-weaken :
    {A : Type 0} (Q Q' : Error → Type 0) (P R : A → Type 0) (m : Result A)
    → ((e : Error) → Q e → Q' e)
    → ((a : A) → P a → R a)
    → Post Q P m
    → Post Q' R m
Post-weaken Q Q' P R (ok a) g f h = f a h
Post-weaken Q Q' P R (err e) g f h = g e h

pub or_fail-Post :
    {A : Type 0} (Q : Error → Type 0) (P : A → Type 0) (o : Option A) (e : Error)
    → Q e
    → ((a : A) → o ≡ some a → P a)
    → Post Q P (or_fail o e)
or_fail-Post Q P none e q p = q
or_fail-Post Q P (some a) e q p = p a refl

-- To split on a call and keep the equation.
pub Result-cases {ℓ} :
    {A : Type ℓ} (r : Result A) → ((a : A) × (r ≡ ok a)) ⊎ ((e : Error) × (r ≡ err e))
Result-cases (ok a) = inl (a, refl)
Result-cases (err e) = inr (e, refl)
