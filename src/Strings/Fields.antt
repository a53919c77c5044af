-- ===== src/Strings/Fields.antt =====
-- `splitString` at a token of one byte, against a reference that reads the text once.
use mqttraffic_warden.Common.{
  ℕ, zero, suc, ◌+◌, ◌≡◌, ◌≢◌, refl, sym, ap, ◌∙◌, inl, inr, none, some, List, [], ◌∷◌, ◌++◌,
  append_assoc, append-nil, arith, Text, ◌==◌, if◌then◌else◌, length, take, drop, Bool-cases,
  Option-cases, All,
}
use mqttraffic_warden.Strings.{find, split_loop, split_string, push_if_empty}
use mqttraffic_warden.Strings.Find.{spell, join-split}
use mathlib.Core.List.{flat_map}

abbrev pub prepend : ℕ → List Text → List Text
prepend c [] = (c ∷ []) ∷ []
prepend c (p ∷ ps) = (c ∷ p) ∷ ps

-- The fields of a text: what stands between the separators. The empty text has one empty field.
unfoldable pub fields : ℕ → Text → List Text
fields sep [] = [] ∷ []
fields sep (c ∷ s) = let rest = fields sep s in if c == sep then [] ∷ rest else prepend c rest

pub fields-ne-nil : (sep : ℕ) (s : Text) → fields sep s ≢ []
unfolding fields
fields-ne-nil sep [] = λ e. cc
fields-ne-nil sep (c ∷ s) = elim (Bool-cases (c == sep)) [
  | inl e ↦ rw e (λ z. cc)
  | inr e ↦ rw e (prepend-ne-nil c (fields sep s))
]
  where
    prepend-ne-nil : (c : ℕ) (ps : List Text) → prepend c ps ≢ []
    prepend-ne-nil c [] = λ e. cc
    prepend-ne-nil c (p ∷ ps) = λ e. cc

prepend-append : (c : ℕ) (ps qs : List Text) → ps ≢ [] → prepend c (ps ++ qs) ≡ prepend c ps ++ qs
prepend-append c [] qs h = absurd (h refl)
prepend-append c (p ∷ ps) qs h = refl

-- A separator between two texts separates their fields.
pub fields-append-sep :
    (sep : ℕ) (s t : Text) → fields sep (s ++ sep ∷ t) ≡ fields sep s ++ fields sep t
unfolding fields
fields-append-sep sep [] t = ground arith
fields-append-sep sep (c ∷ s) t = elim (Bool-cases (c == sep)) [
  | inl e ↦ rw e (ap (◌∷◌ []) (fields-append-sep sep s t))
  | inr e ↦ rw e (
      ap (prepend c) (fields-append-sep sep s t)
      ∙ prepend-append c (fields sep s) (fields sep t) (fields-ne-nil sep s))
]

fields-find-none : (sep : ℕ) (s : Text) → find (sep ∷ []) s ≡ none → fields sep s ≡ s ∷ []
unfolding find fields
fields-find-none sep [] h = refl
fields-find-none sep (c ∷ s) h = ground (arith, fields-find-none sep s)

fields-find-some :
    (sep : ℕ) (s : Text) (i : ℕ)
    → find (sep ∷ []) s ≡ some i
    → fields sep s ≡ take i s ∷ fields sep (drop (suc i) s)
unfolding find fields
fields-find-some sep [] i h = ground arith
fields-find-some sep (c ∷ s) zero h = ground arith
fields-find-some sep (c ∷ s) (suc i) h = ground (arith, fields-find-some sep s i)

-- What the loop of `splitString` collects at a token of one byte: no field for the empty text.
abbrev pub loop_fields : ℕ → Text → List Text
loop_fields sep [] = []
loop_fields sep (c ∷ s) = fields sep (c ∷ s)

collect :
    (sep : ℕ) (rest : Text) (result : List Text)
    → push_if_empty rest result ++ loop_fields sep rest ≡ result ++ fields sep rest
unfolding fields
collect sep [] result = append-nil _
collect sep (c ∷ rest) result = refl

add_one : (i : ℕ) → i + 1 ≡ suc i
add_one i = omega arith

split_loop-fields :
    (fuel sep : ℕ) (s : Text) (result parts : List Text)
    → split_loop fuel s (sep ∷ []) result ≡ some parts
    → parts ≡ result ++ loop_fields sep s
unfolding split_loop
split_loop-fields zero sep s result parts h = cc
split_loop-fields (suc fuel) sep [] result parts h = rw (append-nil result) (cc)
split_loop-fields (suc fuel) sep (c ∷ s) result parts h =
    elim (Option-cases (find (sep ∷ []) (c ∷ s))) [
      | inl e ↦
          split_loop-fields fuel sep [] (result ++ (c ∷ s) ∷ []) parts (rw (e, split_loop) at h)
          ∙ append-nil _
          ∙ ap (◌++◌ result) (sym (fields-find-none sep (c ∷ s) e))
      | inr (i, e) ↦
          let rest = drop (i + 1) (c ∷ s) in
          let p = take i (c ∷ s) in
          split_loop-fields fuel sep rest (push_if_empty rest (result ++ p ∷ [])) parts
            (rw (e, split_loop) at h)
          ∙ collect sep rest (result ++ p ∷ [])
          ∙ append_assoc result (p ∷ []) (fields sep rest)
          ∙ ap (◌++◌ result) (
              ap (λ n. p ∷ fields sep (drop n (c ∷ s))) (add_one i)
              ∙ sym (fields-find-some sep (c ∷ s) i e))
    ]

-- At a token of one byte `splitString` ends and gives the fields of the text, but no field at all
-- for the empty text.
pub split_string-fields :
    (sep : ℕ) (s : Text) → split_string s (sep ∷ []) ≡ some (loop_fields sep s)
unfolding split_string
split_string-fields sep s =
    let (ps, e, _) = join-split s (sep ∷ []) (λ z. cc) in
    e ∙ ap some (split_loop-fields (suc (length s)) sep s [] ps e)

abbrev pub Lacks : ℕ → Text → Type 0
Lacks sep = All (λ c. c ≢ sep)

prepend-Lacks :
    (sep c : ℕ) (ps : List Text) → c ≢ sep → All (Lacks sep) ps → All (Lacks sep) (prepend c ps)
prepend-Lacks sep c [] h hs = ((h, tt), tt)
prepend-Lacks sep c (p ∷ ps) h hs = ((h, hs.0), hs.1)

-- No field holds the separator.
pub fields-Lacks : (sep : ℕ) (s : Text) → All (Lacks sep) (fields sep s)
unfolding fields
fields-Lacks sep [] = (tt, tt)
fields-Lacks sep (c ∷ s) = elim (Bool-cases (c == sep)) [
  | inl e ↦ rw e (tt, fields-Lacks sep s)
  | inr e ↦ rw e (prepend-Lacks sep c (fields sep s) (λ z. ground arith) (fields-Lacks sep s))
]

-- A text without the separator is its own one field.
pub fields_of_Lacks : (sep : ℕ) (s : Text) → Lacks sep s → fields sep s ≡ s ∷ []
unfolding fields
fields_of_Lacks sep [] h = refl
fields_of_Lacks sep (c ∷ s) (h, hs) = ground (arith, fields_of_Lacks sep s hs)

-- The fields of a joined list are the fields of its members, in order.
pub fields-spell :
    (sep : ℕ) (p : Text) (ps : List Text)
    → fields sep (spell (sep ∷ []) (p ∷ ps)) ≡ flat_map (fields sep) (p ∷ ps)
unfolding flat_map
fields-spell sep p [] = sym (append-nil (fields sep p))
fields-spell sep p (q ∷ ps) =
    fields-append-sep sep p (spell (sep ∷ []) (q ∷ ps))
    ∙ ap (◌++◌ (fields sep p)) (fields-spell sep q ps)

pub flat_map-fields_of_Lacks :
    (sep : ℕ) (ps : List Text) → All (Lacks sep) ps → flat_map (fields sep) ps ≡ ps
unfolding flat_map
flat_map-fields_of_Lacks sep [] h = refl
flat_map-fields_of_Lacks sep (p ∷ ps) (h, hs) =
    rw (fields_of_Lacks sep p h) (ap (◌∷◌ p) (flat_map-fields_of_Lacks sep ps hs))
