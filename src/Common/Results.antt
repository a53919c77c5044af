-- ===== src/Common/Results.antt =====
-- The exceptions of the program as values (include/exceptions.h).
use mathlib.Core.Path.{◌≡◌, refl, subst}
use mathlib.Core.Bool.{Bool, true, false}
use mathlib.Core.Logic.{◌⊎◌, inl, inr}

-- The three classes of exceptions.h, `std::out_of_range`, any exception of nlohmann::json, and
-- `mqtt::exception`.
pub data Exception : Type 0 where
  init_failed setup_failed execution_failed out_of_range json_error mqtt_error : Exception

pub data Result {ℓ} (A : Type ℓ) : Type ℓ where
  ok : A → Result A
  throw : Exception → Result A

-- A step that throws ends the chain.
infixl 5 ◌>>=◌
abbrev pub ◌>>=◌ {ℓ κ} : {A : Type ℓ} {B : Type κ} (m : Result A) (next : A → Result B) → Result B
throw x >>= next = throw x
ok a >>= next = next a

pub >>=-assoc {ℓ κ μ} :
    {A : Type ℓ} {B : Type κ} {C : Type μ} (m : Result A) (f : A → Result B) (g : B → Result C)
    → ((m >>= f) >>= g) ≡ (m >>= λ a. f a >>= g)
>>=-assoc (ok a) f g = refl
>>=-assoc (throw e) f g = refl

pub Result-cases {ℓ} :
    {A : Type ℓ} (r : Result A) → ((a : A) × (r ≡ ok a)) ⊎ ((e : Exception) × (r ≡ throw e))
Result-cases (ok a) = inl (a, refl)
Result-cases (throw e) = inr (e, refl)

module _ {ℓ κ} {A : Type ℓ} {B : Type κ} where
  pub >>=-eq-ok :
      (m : Result A) (next : A → Result B) {b : B} (ends : (m >>= next) ≡ ok b)
      → (a : A) × (m ≡ ok a) × (next a ≡ ok b)
  >>=-eq-ok (throw x) next ends = cc
  >>=-eq-ok (ok a) next ends = (a, refl, ends)

-- A condition on every result that is no exception.
abbrev pub Ensures {ℓ κ} : {A : Type ℓ} → (A → Type κ) → Result A → Type κ
Ensures P (ok a) = P a
Ensures P (throw e) = Unit

pub >>=-Ensures {ℓ κ μ} :
    {A : Type ℓ} {B : Type κ} (P : B → Type μ) (m : Result A) (f : A → Result B)
    → ((a : A) → m ≡ ok a → Ensures P (f a))
    → Ensures P (m >>= f)
>>=-Ensures P (ok a) f h = h a refl
>>=-Ensures P (throw e) f h = tt

pub Ensures_elim {ℓ κ} :
    {A : Type ℓ} (P : A → Type κ) (r : Result A) (a : A) → Ensures P r → r ≡ ok a → P a
Ensures_elim P r a h e = subst (Ensures P) e h

-- Every exception that is thrown is an allowed one.
abbrev pub OnlyThrows {ℓ} : {A : Type ℓ} → (Exception → Bool) → Result A → Type 0
OnlyThrows allowed (ok a) = Unit
OnlyThrows allowed (throw e) = allowed e ≡ true

pub >>=-OnlyThrows {ℓ κ} :
    {A : Type ℓ} {B : Type κ} (allowed : Exception → Bool) (m : Result A) (next : A → Result B)
    → OnlyThrows allowed m
    → ((a : A) → OnlyThrows allowed (next a))
    → OnlyThrows allowed (m >>= next)
>>=-OnlyThrows allowed (ok a) next h k = k a
>>=-OnlyThrows allowed (throw e) next h k = h

-- No exception is thrown.
abbrev pub is_ok {ℓ} : {A : Type ℓ} → Result A → Bool
is_ok (ok a) = true
is_ok (throw e) = false

pub ok-of_is_ok {ℓ} : {A : Type ℓ} (r : Result A) → is_ok r ≡ true → (a : A) × (r ≡ ok a)
ok-of_is_ok (ok a) h = (a, refl)
ok-of_is_ok (throw e) h = absurd cc
