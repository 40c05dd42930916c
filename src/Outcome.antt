-- ===== src/Outcome.antt =====
-- The result of a function that returns a negative code when it refuses its input. `fault` stands
-- for a failed assertion, and for a decision that rests on memory which was never written; `exhausted` for a
-- recursion that was given too little fuel.
use rbus.Base.{◌≡◌, ◌≢◌, refl, Bool, true, false, if◌then◌else◌}
use mathlib.Core.Path.{subst}

pub data Outcome {ℓ} (A : Type ℓ) : Type ℓ where
  done : A → Outcome A
  refused : Outcome A
  fault : Outcome A
  exhausted : Outcome A

infixl 5 ◌>>=◌
abbrev pub ◌>>=◌ {ℓ κ} : {A : Type ℓ} {B : Type κ} → Outcome A → (A → Outcome B) → Outcome B
done a >>= f = f a
refused >>= f = refused
fault >>= f = fault
exhausted >>= f = exhausted

-- A chain that is done has a first step that is.
pub >>=-eq-done {ℓ κ} :
    {A : Type ℓ} {B : Type κ} (m : Outcome A) (f : A → Outcome B) {b : B}
    → (m >>= f) ≡ done b
    → (a : A) × (m ≡ done a) × (f a ≡ done b)
>>=-eq-done (done a) f h = (a, refl, h)
>>=-eq-done refused f h = cc
>>=-eq-done fault f h = cc
>>=-eq-done exhausted f h = cc

-- A chain runs out of fuel only if its first step does, or what follows its result.
pub >>=-ne-exhausted {ℓ κ} :
    {A : Type ℓ} {B : Type κ} (m : Outcome A) (f : A → Outcome B)
    → m ≢ exhausted
    → ((a : A) → m ≡ done a → f a ≢ exhausted)
    → (m >>= f) ≢ exhausted
>>=-ne-exhausted (done a) f h k = k a refl
>>=-ne-exhausted refused f h k = λ e. cc
>>=-ne-exhausted fault f h k = λ e. cc
>>=-ne-exhausted exhausted f h k = absurd (h refl)

-- What a step gives, if it gives anything.
pub record Ensures {ℓ} {A : Type ℓ} (P : A → Type 0) (o : Outcome A) : Type ℓ where
  pub result : (a : A) → o ≡ done a → P a

module _ {ℓ} {A : Type ℓ} {P : A → Type 0} where
  pub Ensures-done : (a : A) → P a → Ensures P (done a)
  Ensures-done a p = record { result = λ b e. let e' : a ≡ b = cc in subst P e' p }

  pub Ensures-fault : Ensures P fault
  Ensures-fault = record { result = λ b e. cc }

  pub Ensures-exhausted : Ensures P exhausted
  Ensures-exhausted = record { result = λ b e. cc }

  pub Ensures-if :
      (t : Bool) (o p : Outcome A) → Ensures P o → Ensures P p → Ensures P (if t then o else p)
  Ensures-if true o p x y = x
  Ensures-if false o p x y = y

pub Ensures-bind {ℓ κ} :
    {A : Type ℓ} {B : Type κ} {P : B → Type 0} (m : Outcome A) (f : A → Outcome B)
    → ((a : A) → m ≡ done a → Ensures P (f a))
    → Ensures P (m >>= f)
Ensures-bind m f h = record {
  result = λ b e. let (a, found, rest) = >>=-eq-done m f e in (h a found).result b rest;
}
