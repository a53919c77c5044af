-- ===== src/Common/Permutations.antt =====
-- Lists that hold the same members, in any order.
use Prim.Native.Nat.{ℕ, ◌+◌, ◌<◌}
use mathlib.Core.Path.{◌≡◌, refl, sym, ap, ◌∙◌}
use mathlib.Core.List.{List, [], ◌∷◌, ◌++◌, Perm, perm_middle}
use mathlib.Core.List.Perm
use native.Mathlib.Omega.{arith}
use mqttraffic_warden.Common.Weights.{weigh, weigh-append}

abbrev as_number {ℓ} : {P : Type ℓ} → Dec P → ℕ
as_number (yes p) = 1
as_number (no p) = 0

as_number_yes {ℓ} : {P : Type ℓ} (d : Dec P) → P → as_number d ≡ 1
as_number_yes (yes q) p = refl
as_number_yes (no q) p = absurd (q p)

as_number_no {ℓ} : {P : Type ℓ} (d : Dec P) → ¬ P → as_number d ≡ 0
as_number_no (yes q) p = absurd (p q)
as_number_no (no q) p = refl

module _ {A : Type 0} (same : Discrete A) where
  abbrev indicator : A → A → ℕ
  indicator a x = as_number (same a x)

  -- The parts of a list before and behind a member.
  around :
      (a : A) (l : List A)
      → 0 < weigh (indicator a) l
      → (before : List A) × (behind : List A) × (l ≡ before ++ a ∷ behind)
  around a [] h = absurd (omega arith)
  around a (x ∷ l) h = elim (same a x) [
    | yes e ↦ ([], l, ap (λ b. b ∷ l) (sym e))
    | no e ↦
        let (before, behind, q) = around a l (omega (arith, h, as_number_no (same a x) e)) in
        (x ∷ before, behind, ap (λ b. x ∷ b) q)
  ]

  removed :
      (a : A) (l before behind : List A) (f : A → ℕ)
      → f a + weigh f l ≡ weigh f (before ++ a ∷ behind)
      → weigh f l ≡ weigh f (before ++ behind)
  removed a l before behind f h =
      omega (arith, h, weigh-append f before (a ∷ behind), weigh-append f before behind)

  -- Lists with the same total under every weight are permutations of each other.
  pub Perm-of_weigh : (l r : List A) → ((f : A → ℕ) → weigh f l ≡ weigh f r) → Perm l r
  Perm-of_weigh [] [] h = Perm.refl []
  Perm-of_weigh [] (x ∷ r) h = absurd (omega (arith, h (λ y. 1)))
  Perm-of_weigh (a ∷ l) r h =
      let (before, behind, e) =
        around a r (omega (arith, h (indicator a), as_number_yes (same a a) refl)) in
      Perm.trans
        (Perm.cons a (
          Perm-of_weigh l (before ++ behind)
            (λ f. removed a l before behind f (h f ∙ ap (weigh f) e))))
        (rw e (Perm.symm (perm_middle before behind)))
