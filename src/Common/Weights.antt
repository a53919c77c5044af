-- ===== src/Common/Weights.antt =====
-- The total weight of a list.
use Prim.Native.Nat.{ℕ, ◌+◌}
use mathlib.Core.Path.{◌≡◌, refl}
use mathlib.Core.Logic.{inl, inr}
use mathlib.Core.Bool.{Bool, true}
use mqttraffic_warden.Common.Tests.{if◌then◌else◌, Bool-cases}
use mqttraffic_warden.Common.Lists.{All, length}
use mathlib.Core.List.{List, [], ◌∷◌, ◌++◌, flat_map}
use native.Mathlib.Omega.{arith}

-- The total weight of a list under a weight of its members. Two lists with the same total under every
-- weight hold the same members, each as often.
abbrev pub weigh : {A : Type 0} → (A → ℕ) → List A → ℕ
weigh f [] = 0
weigh f (x ∷ xs) = f x + weigh f xs

pub weigh-append :
    {A : Type 0} (f : A → ℕ) (xs ys : List A) → weigh f (xs ++ ys) ≡ weigh f xs + weigh f ys
weigh-append f [] ys = omega arith
weigh-append f (x ∷ xs) ys = omega (arith, weigh-append f xs ys)

pub weigh-concat :
    {A : Type 0} (f : A → ℕ) (xs : List A) (x : A) → weigh f (xs ++ x ∷ []) ≡ weigh f xs + f x
weigh-concat f xs x = omega (arith, weigh-append f xs (x ∷ []))

pub weigh-flat_map :
    {A B : Type 0} (f : B → ℕ) (g : A → List B) (xs : List A)
    → weigh f (flat_map g xs) ≡ weigh (λ x. weigh f (g x)) xs
unfolding flat_map
weigh-flat_map f g [] = refl
weigh-flat_map f g (x ∷ xs) =
    omega (arith, weigh-append f (g x) (flat_map g xs), weigh-flat_map f g xs)

-- The number of members, as a weight.
pub weigh-length : {A : Type 0} (xs : List A) → weigh (λ x. 1) xs ≡ length xs
weigh-length [] = refl
weigh-length (x ∷ xs) = omega (arith, weigh-length xs)

-- The members for which a test fails.
abbrev pub failures : {A : Type 0} → (A → Bool) → List A → ℕ
failures test = weigh (λ x. if test x then 0 else 1)

pub failures_of_All :
    {A : Type 0} (test : A → Bool) (xs : List A)
    → All (λ x. test x ≡ true) xs
    → failures test xs ≡ 0
failures_of_All test [] h = refl
failures_of_All test (x ∷ xs) (h, hs) = simp (h, failures_of_All test xs hs)

pub All-of_failures :
    {A : Type 0} (test : A → Bool) (xs : List A)
    → failures test xs ≡ 0
    → All (λ x. test x ≡ true) xs
All-of_failures test [] h = tt
All-of_failures test (x ∷ xs) h = elim (Bool-cases (test x)) [
  | inl b ↦ (b, All-of_failures test xs (omega (arith, rw b at h)))
  | inr b ↦ absurd (omega (arith, rw b at h))
]
