-- ===== src/Address/Separated.antt =====
-- Regular expressions for a number of parts with a separator between any two.
use mqttraffic_warden.Common.{
  ℕ, zero, suc, ◌≡◌, ◌↔◌, refl, sym, ap, ◌∙◌, List, [], ◌∷◌, ◌++◌, append_assoc, Text, length, All,
  arith,
}
use mathlib.Core.Path.{subst}
use mqttraffic_warden.Strings.{join_strings}
use mqttraffic_warden.Strings.Find.{spell, join_strings-spell}
use mqttraffic_warden.Address.{Regex, then_by, one, repeat}
use mqttraffic_warden.Address.Language.{In}

-- `n` parts with a separator between any two.
abbrev pub IsJoined : (Text → Type 0) → ℕ → ℕ → Text → Type 0
IsJoined P n sep s =
    (ps : List Text) × (length ps ≡ n) × All P ps × (s ≡ join_strings ps (sep ∷ []))

-- `(r c){n} r`
abbrev pub separated : ℕ → Regex → ℕ → Regex
separated n r c = then_by (repeat n (then_by r (one c))) r

separated_step :
    (n : ℕ) (r : Regex) (c : ℕ) (s : Text)
    → In (separated (suc n) r c) s
    → (a : Text) × (t : Text) × (s ≡ a ++ c ∷ t) × In r a × In (separated n r c) t
separated_step n r c s (x, z, e, (y, u, f, (a, d, g, ha, (k, lo, hi, only)), hu), hz) =
    let same : k ≡ c = omega arith in
    (
      a,
      u ++ z,
      e
          ∙ ap (λ t. t ++ z) (f ∙ ap (λ t. t ++ u) (g ∙ ap (◌++◌ a) (only ∙ ap (λ t. t ∷ []) same)))
          ∙ (simp append_assoc),
      ha,
      (u, z, refl, hu, hz),
    )

spell_more :
    (c : ℕ) (a t : Text) (ps : List Text) (n : ℕ)
    → length ps ≡ suc n
    → t ≡ spell (c ∷ []) ps
    → a ++ c ∷ t ≡ spell (c ∷ []) (a ∷ ps)
spell_more c a t [] n l e = absurd (omega arith)
spell_more c a t (p ∷ ps) n l e = ap (λ x. a ++ c ∷ x) e

separated_sound :
    (n : ℕ) (r : Regex) (c : ℕ) (s : Text)
    → In (separated n r c) s
    → (ps : List Text) × (length ps ≡ suc n) × All (In r) ps × (s ≡ spell (c ∷ []) ps)
separated_sound zero r c s (a, b, e, h, k) = (b ∷ [], omega arith, (k, tt), e ∙ ap (λ x. x ++ b) h)
separated_sound (suc n) r c s h =
    let (a, t, e, ha, ht) = separated_step n r c s h in
    let (ps, l, all, et) = separated_sound n r c t ht in
    (a ∷ ps, omega arith, (ha, all), e ∙ spell_more c a t ps n l et)

separated_complete :
    (n : ℕ) (r : Regex) (c : ℕ) (ps : List Text)
    → length ps ≡ suc n
    → All (In r) ps
    → In (separated n r c) (spell (c ∷ []) ps)
separated_complete n r c [] l h = absurd (omega arith)
separated_complete zero r c (p ∷ []) l (h, _) = ([], p, refl, refl, h)
separated_complete zero r c (p ∷ q ∷ ps) l h = absurd (omega arith)
separated_complete (suc n) r c (p ∷ []) l h = absurd (omega arith)
separated_complete (suc n) r c (p ∷ q ∷ ps) l (h, hs) =
    let (u, z, e, hu, hz) = separated_complete n r c (q ∷ ps) (omega arith) hs in
    (
      (p ++ c ∷ []) ++ u,
      z,
      ap (λ t. p ++ c ∷ t) e ∙ (simp append_assoc),
      (p ++ c ∷ [], u, refl, (p, c ∷ [], refl, h, (c, omega arith, omega arith, refl)), hu),
      hz,
    )

All-iff {ℓ κ μ} :
    {A : Type ℓ} {P : A → Type κ} {Q : A → Type μ} (f : (a : A) → P a → Q a) (xs : List A)
    → All P xs
    → All Q xs
All-iff f [] h = tt
All-iff f (x ∷ xs) (h, hs) = (f x h, All-iff f xs hs)

-- An expression for `suc n` parts with a separator between any two.
pub separated_iff :
    (P : Text → Type 0) (n : ℕ) (r : Regex) (c : ℕ) (s : Text)
    → ((p : Text) → In r p ↔ P p)
    → In (separated n r c) s ↔ IsJoined P (suc n) c s
separated_iff P n r c s part = (
  λ h.
      let (ps, l, all, e) = separated_sound n r c s h in
      (ps, l, All-iff (λ p. (part p).0) ps all, e ∙ sym (join_strings-spell (c ∷ []) ps)),
  λ (ps, l, all, e).
      subst (In (separated n r c)) (sym (e ∙ join_strings-spell (c ∷ []) ps))
        (separated_complete n r c ps l (All-iff (λ p. (part p).1) ps all)),
)
