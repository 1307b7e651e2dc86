-- ===== src/Base/Outcome.antt =====
-- A result or the code of a refusal. The source's refusals also carry a text for the screen.
use Prim.Native.String.{String}
use mathlib.Core.Bool.{Bool, true, false}
use mathlib.Core.Logic.{◌⊎◌, inl, inr}
use mathlib.Core.Path.{◌≡◌, refl}

pub data Outcome {ℓ} (A : Type ℓ) : Type ℓ where
  ok : A → Outcome A
  fail : String → Outcome A

abbrev pub is_ok {ℓ} : {A : Type ℓ} → Outcome A → Bool
is_ok (fail e) = false
is_ok (ok a) = true

-- What is done with a result, if there is one.
infixl 5 ◌>>=◌ ◌>>◌
abbrev pub ◌>>=◌ {ℓ κ} : {A : Type ℓ} {B : Type κ} → Outcome A → (A → Outcome B) → Outcome B
fail code >>= next = fail code
ok a >>= next = next a

abbrev pub ◌>>◌ {ℓ κ} : {A : Type ℓ} {B : Type κ} → Outcome A → Outcome B → Outcome B
first >> next = first >>= λ _. next

pub is_ok-eq {ℓ} : {A : Type ℓ} (o : Outcome A) → is_ok o ≡ true → (a : A) × (o ≡ ok a)
is_ok-eq (ok a) h = (a, refl)
is_ok-eq (fail e) h = cc

pub Outcome-cases {ℓ} :
    {A : Type ℓ} (o : Outcome A) → ((a : A) × (o ≡ ok a)) ⊎ ((c : String) × (o ≡ fail c))
Outcome-cases (ok a) = inl (a, refl)
Outcome-cases (fail c) = inr (c, refl)

-- A chain that succeeds has gone through each of its steps.
pub >>=-eq-ok {ℓ κ} :
    {A : Type ℓ} {B : Type κ} (first : Outcome A) (next : A → Outcome B) (b : B)
    → (first >>= next) ≡ ok b
    → (a : A) × (first ≡ ok a) × (next a ≡ ok b)
>>=-eq-ok (fail code) next b h = cc
>>=-eq-ok (ok a) next b h = (a, refl, h)

pub ok-inj {ℓ} : {A : Type ℓ} {a b : A} → ok a ≡ ok b → a ≡ b
ok-inj h = cc

-- Keeping a result for later does not change whether there is one.
pub is_ok_then {ℓ κ} :
    {A : Type ℓ} {B : Type κ} (first : Outcome A) (f : A → B)
    → is_ok (first >>= λ a. ok (f a)) ≡ is_ok first
is_ok_then (ok a) f = refl
is_ok_then (fail code) f = refl
