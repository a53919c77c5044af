-- ===== src/Address/Language.antt =====
-- The texts of a regular expression, and `regex_match` against them.
use mqttraffic_warden.Common.{
  ℕ, ◌≤◌, ◌≡◌, ◌↔◌, ◌⊎◌, refl, sym, ap, inl, inr, true, false, ◌&&◌, [], ◌∷◌, ◌++◌, Text, leb,
  Bool-cases, arith,
}
use mathlib.Core.Path.{subst}
use mqttraffic_warden.Address.{
  Regex, none_at_all, empty_text, range, or_else, then_by, accepts_empty, derive, regex_match,
}

-- The text is one that the expression describes.
abbrev pub In : Regex → Text → Type 0
In none_at_all s = ⊥
In empty_text s = s ≡ []
In (range lo hi) s = (c : ℕ) × (lo ≤ c) × (c ≤ hi) × (s ≡ c ∷ [])
In (or_else r q) s = In r s ⊎ In q s
In (then_by r q) s = (a : Text) × (b : Text) × (s ≡ a ++ b) × In r a × In q b

In-subst : (r : Regex) {s t : Text} → s ≡ t → In r s → In r t
In-subst r e h = subst (In r) e h

accepts_empty_sound : (r : Regex) → accepts_empty r ≡ true → In r []
unfolding accepts_empty
accepts_empty_sound none_at_all h = absurd (ground arith)
accepts_empty_sound empty_text h = refl
accepts_empty_sound (range lo hi) h = absurd (ground arith)
accepts_empty_sound (or_else r q) h = elim (Bool-cases (accepts_empty r)) [
  | inl e ↦ inl (accepts_empty_sound r e)
  | inr e ↦ inr (accepts_empty_sound q (ground arith))
]
accepts_empty_sound (then_by r q) h =
    ([], [], refl, accepts_empty_sound r (ground arith), accepts_empty_sound q (ground arith))

nil_append : (a b : Text) → [] ≡ a ++ b → (a ≡ []) × (b ≡ [])
nil_append [] b h = (refl, sym h)
nil_append (c ∷ a) b h = cc

accepts_empty_complete : (r : Regex) → In r [] → accepts_empty r ≡ true
unfolding accepts_empty
accepts_empty_complete none_at_all h = absurd h
accepts_empty_complete empty_text h = refl
accepts_empty_complete (range lo hi) (c, _, _, e) = cc
accepts_empty_complete (or_else r q) (inl h) = ground (arith, accepts_empty_complete r h)
accepts_empty_complete (or_else r q) (inr h) = ground (arith, accepts_empty_complete q h)
accepts_empty_complete (then_by r q) (a, b, e, h, k) =
    let (ea, eb) = nil_append a b e in
    ground (
      arith,
      accepts_empty_complete r (In-subst r ea h),
      accepts_empty_complete q (In-subst q eb k),
    )

derive_then_of_empty :
    (r q : Regex) (c : ℕ)
    → accepts_empty r ≡ true
    → derive c (then_by r q) ≡ or_else (then_by (derive c r) q) (derive c q)
unfolding derive
derive_then_of_empty r q c e = simp (derive, e)

derive_then_of_nonempty :
    (r q : Regex) (c : ℕ)
    → accepts_empty r ≡ false
    → derive c (then_by r q) ≡ then_by (derive c r) q
unfolding derive
derive_then_of_nonempty r q c e = simp (derive, e)

cons_append :
    (c : ℕ) (s a b : Text)
    → c ∷ s ≡ a ++ b
    → ((a ≡ []) × (b ≡ c ∷ s)) ⊎ ((a' : Text) × (a ≡ c ∷ a') × (s ≡ a' ++ b))
cons_append c s [] b h = inl (refl, sym h)
cons_append c s (d ∷ a) b h =
    let same : d ≡ c = cc in let rest : s ≡ a ++ b = cc in inr (a, ap (λ x. x ∷ a) same, rest)

derive_sound : (r : Regex) (c : ℕ) (s : Text) → In (derive c r) s → In r (c ∷ s)
unfolding derive
derive_sound none_at_all c s h = absurd h
derive_sound empty_text c s h = absurd h
derive_sound (range lo hi) c s h = elim (Bool-cases (leb lo c && leb c hi)) [
  | inl e ↦
      let nothing : s ≡ [] = rw (derive, e, In) at h in
      (c, ground arith, ground arith, ap (◌∷◌ c) nothing)
  | inr e ↦ absurd (rw (derive, e, In) at h)
]
derive_sound (or_else r q) c s (inl h) = inl (derive_sound r c s h)
derive_sound (or_else r q) c s (inr h) = inr (derive_sound q c s h)
derive_sound (then_by r q) c s h =
    let longer : In (then_by (derive c r) q) s → In (then_by r q) (c ∷ s) =
      λ (a, b, e, x, y). (c ∷ a, b, ap (◌∷◌ c) e, derive_sound r c a x, y) in
    elim (Bool-cases (accepts_empty r)) [
      | inl e ↦ elim (subst (λ t. In t s) (derive_then_of_empty r q c e) h) [
        | inl k ↦ longer k
        | inr k ↦ ([], c ∷ s, refl, accepts_empty_sound r e, derive_sound q c s k)
      ]
      | inr e ↦ longer (subst (λ t. In t s) (derive_then_of_nonempty r q c e) h)
    ]

derive_complete : (r : Regex) (c : ℕ) (s : Text) → In r (c ∷ s) → In (derive c r) s
unfolding derive
derive_complete none_at_all c s h = absurd h
derive_complete empty_text c s h = cc
derive_complete (range lo hi) c s (d, l, u, e) =
    let same : d ≡ c = cc in
    let rest : s ≡ [] = cc in
    let within : (leb lo c && leb c hi) ≡ true = ground arith in rw (within, In) rest
derive_complete (or_else r q) c s (inl h) = inl (derive_complete r c s h)
derive_complete (or_else r q) c s (inr h) = inr (derive_complete q c s h)
derive_complete (then_by r q) c s (a, b, e, h, k) = elim (cons_append c s a b e) [
  | inl (no_a, same) ↦
      subst (λ t. In t s)
        (sym (derive_then_of_empty r q c (accepts_empty_complete r (In-subst r no_a h))))
        (inr (derive_complete q c s (In-subst q same k)))
  | inr (a', some_a, rest) ↦
      let x : In (then_by (derive c r) q) s =
        (a', b, rest, derive_complete r c a' (In-subst r some_a h), k) in
      elim (Bool-cases (accepts_empty r)) [
        | inl y ↦ subst (λ t. In t s) (sym (derive_then_of_empty r q c y)) (inl x)
        | inr y ↦ subst (λ t. In t s) (sym (derive_then_of_nonempty r q c y)) x
      ]
]

-- `regex_match` accepts a text exactly if the expression describes it.
pub regex_match_iff : (s : Text) (r : Regex) → (regex_match s r ≡ true) ↔ In r s
unfolding regex_match
regex_match_iff [] r = (accepts_empty_sound r, accepts_empty_complete r)
regex_match_iff (c ∷ s) r =
    let (sound, complete) = regex_match_iff s (derive c r) in
    (λ h. derive_sound r c s (sound h), λ h. complete (derive_complete r c s h))
