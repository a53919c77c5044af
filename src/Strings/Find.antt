-- ===== src/Strings/Find.antt =====
-- `find` and the loop of `splitString` for any token that is not empty.
use mqttraffic_warden.Common.{
  ℕ, zero, suc, ◌+◌, ◌<◌, ◌≡◌, ◌≢◌, refl, sym, ap, ◌∙◌, true, inl, inr, none, some, List, [], ◌∷◌,
  ◌++◌, append_assoc, append-nil, arith, Text, length, take, drop, length-drop, Option-cases,
}
use mqttraffic_warden.Strings.{
  starts_with, find, split_loop, split_string, push_if_empty, join_loop, join_strings,
}

starts_with_sound :
    (token s : Text) → starts_with token s ≡ true → s ≡ token ++ drop (length token) s
unfolding starts_with
starts_with_sound [] s h = refl
starts_with_sound (t ∷ token) [] h = ground arith
starts_with_sound (t ∷ token) (c ∷ s) h = ground (arith, starts_with_sound token s)

add_suc : (i n : ℕ) → suc i + n ≡ suc (i + n)
add_suc i n = omega arith

zero_add : (n : ℕ) → 0 + n ≡ n
zero_add n = omega arith

-- `s` is what stands before the token, the token, and what stands behind it.
pub find_sound :
    (token s : Text) (i : ℕ)
    → find token s ≡ some i
    → s ≡ take i s ++ (token ++ drop (i + length token) s)
unfolding find
find_sound [] [] zero h = refl
find_sound [] [] (suc i) h = ground arith
find_sound (t ∷ token) [] i h = ground arith
find_sound token (c ∷ s) zero h =
    rw (zero_add (length token)) (starts_with_sound token (c ∷ s) (ground arith))
find_sound token (c ∷ s) (suc i) h =
    rw (add_suc i (length token)) (ap (◌∷◌ c) (find_sound token s i (ground arith)))

-- Enough fuel: the loop ends, and its parts spell the text that it was given.
abbrev pub spell : Text → List Text → Text
spell token [] = []
spell token (p ∷ []) = p
spell token (p ∷ q ∷ ps) = p ++ (token ++ spell token (q ∷ ps))

spell-cons :
    (token p : Text) (ps : List Text)
    → ps ≢ []
    → spell token (p ∷ ps) ≡ p ++ (token ++ spell token ps)
spell-cons token p [] h = absurd (h refl)
spell-cons token p (q ∷ ps) h = refl

separated : Text → List Text → Text
separated token [] = []
separated token (q ∷ ps) = token ++ (q ++ separated token ps)

spell-separated : (token p : Text) (ps : List Text) → spell token (p ∷ ps) ≡ p ++ separated token ps
unfolding separated
spell-separated token p [] = sym (append-nil p)
spell-separated token p (q ∷ ps) = ap (λ t. p ++ (token ++ t)) (spell-separated token q ps)

join_loop-separated :
    (token result p : Text) (ps : List Text)
    → join_loop token result (p ∷ ps) ≡ result ++ separated token ps
unfolding join_loop separated
join_loop-separated token result p [] = sym (append-nil result)
join_loop-separated token result p (q ∷ ps) =
    join_loop-separated token ((result ++ token) ++ q) q ps ∙ simp append_assoc

pub join_strings-spell : (token : Text) (ps : List Text) → join_strings ps token ≡ spell token ps
unfolding join_strings
join_strings-spell token [] = refl
join_strings-spell token (p ∷ ps) =
    join_loop-separated token p p ps ∙ sym (spell-separated token p ps)

pub record Splits (fuel : ℕ) (token s : Text) (result : List Text) : Type 0 where
  pub parts : List Text
  pub ends : split_loop fuel s token result ≡ some (result ++ parts)
  pub spells : spell token parts ≡ s
  pub nonempty : s ≢ [] → parts ≢ []

positive : (token : Text) → token ≢ [] → 0 < length token
positive [] h = absurd (h refl)
positive (t ∷ token) h = omega arith

-- The part before the token, put before the parts of what stands behind it.
extend :
    (fuel : ℕ) (token s rest p : Text) (result : List Text)
    → s ≡ p ++ (token ++ rest)
    → Splits fuel token rest (push_if_empty rest (result ++ p ∷ []))
    → (parts : List Text) × (split_loop fuel rest token (push_if_empty rest (result ++ p ∷ []))
        ≡ some (result ++ parts))
      × (spell token parts ≡ s)
      × (parts ≢ [])
unfolding split_loop
extend zero token s [] p result e sp = cc (sp.ends)
extend (suc fuel) token s [] p result e sp = (p ∷ [] ∷ [], simp append_assoc, sym e, λ c. cc)
extend fuel token s (c ∷ rest) p result e sp = (
  p ∷ sp.parts,
  sp.ends ∙ ap some (append_assoc result (p ∷ []) sp.parts),
  spell-cons token p sp.parts (sp.nonempty (λ c. cc)) ∙ rw (sp.spells) (sym e),
  λ c. cc,
)

shorter :
    (token s : Text) (i : ℕ)
    → token ≢ []
    → 0 < length s
    → length (drop (i + length token) s) < length s
shorter token s i h pos = omega (arith, length-drop (i + length token) s, positive token h)

pub split_loop-Splits :
    (fuel : ℕ) (token s : Text) (result : List Text)
    → token ≢ []
    → length s < fuel
    → Splits fuel token s result
unfolding split_loop
split_loop-Splits zero token s result t h = absurd (omega arith)
split_loop-Splits (suc fuel) token [] result t h = record {
  parts = [];
  ends = ap some (sym (append-nil result));
  spells = refl;
  nonempty = λ c. absurd (c refl);
}
split_loop-Splits (suc zero) token (c ∷ s) result t h = absurd (omega arith)
split_loop-Splits (suc (suc fuel)) token (c ∷ s) result t h =
    elim (Option-cases (find token (c ∷ s))) [
      | inl e ↦ record {
        parts = (c ∷ s) ∷ [];
        ends = rw (e, split_loop);
        spells = refl;
        nonempty = λ _ z. cc;
      }
      | inr (i, e) ↦
          let (parts, ends, spells, some_part) =
            extend (suc fuel) token (c ∷ s) (drop (i + length token) (c ∷ s)) (take i (c ∷ s))
              result (find_sound token (c ∷ s) i e)
              (split_loop-Splits (suc fuel) token _ _ t
                (omega (arith, shorter token (c ∷ s) i t))) in
          record {
            parts = parts;
            ends = rw (e, split_loop) ends;
            spells = spells;
            nonempty = λ _. some_part;
          }
    ]

-- For every token that is not empty and every text, `splitString` ends within its fuel, and
-- `joinStrings` of its parts with the same token gives the text back.
pub join-split :
    (s token : Text)
    → token ≢ []
    → (ps : List Text) × (split_string s token ≡ some ps) × (join_strings ps token ≡ s)
unfolding split_string
join-split s token t =
    let sp = split_loop-Splits (suc (length s)) token s [] t (omega arith) in
    (sp.parts, sp.ends, join_strings-spell token sp.parts ∙ sp.spells)

-- With an empty token the loop makes no progress: no fuel is enough for a text that is not empty.
pub split_loop-empty_token :
    (fuel : ℕ) (c : ℕ) (s : Text) (result : List Text) → split_loop fuel (c ∷ s) [] result ≡ none
unfolding split_loop
split_loop-empty_token zero c s result = refl
split_loop-empty_token (suc fuel) c s result = split_loop-empty_token fuel c s (result ++ [] ∷ [])
