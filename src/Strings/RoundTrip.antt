-- ===== src/Strings/RoundTrip.antt =====
-- `splitString` of what `joinStrings` gives, for a token of one byte.
use mqttraffic_warden.Common.{ℕ, ◌≡◌, ◌≢◌, refl, ap, ◌∙◌, some, List, [], ◌∷◌, Text, All}
use mqttraffic_warden.Strings.{split_string, join_strings}
use mqttraffic_warden.Strings.Find.{spell, join_strings-spell}
use mqttraffic_warden.Strings.Fields.{
  fields, loop_fields, split_string-fields, Lacks, fields-spell, flat_map-fields_of_Lacks,
}

spell-ne-nil : (sep : ℕ) (ps : List Text) → ps ≢ [] → ps ≢ [] ∷ [] → spell (sep ∷ []) ps ≢ []
spell-ne-nil sep [] h k = absurd (h refl)
spell-ne-nil sep ([] ∷ []) h k = absurd (k refl)
spell-ne-nil sep ((c ∷ p) ∷ []) h k = λ e. cc
spell-ne-nil sep ([] ∷ q ∷ ps) h k = λ e. cc
spell-ne-nil sep ((c ∷ p) ∷ q ∷ ps) h k = λ e. cc

loop_fields_of_ne : (sep : ℕ) (s : Text) → s ≢ [] → loop_fields sep s ≡ fields sep s
loop_fields_of_ne sep [] h = absurd (h refl)
loop_fields_of_ne sep (c ∷ s) h = refl

fields-spell_of_Lacks :
    (sep : ℕ) (ps : List Text)
    → ps ≢ []
    → All (Lacks sep) ps
    → fields sep (spell (sep ∷ []) ps) ≡ ps
fields-spell_of_Lacks sep [] h l = absurd (h refl)
fields-spell_of_Lacks sep (p ∷ ps) h l =
    fields-spell sep p ps ∙ flat_map-fields_of_Lacks sep (p ∷ ps) l

-- For a token of one byte and a list of parts without it, which is not empty and not one empty part:
-- `splitString` of the joined parts gives the parts back.
pub split-join :
    (sep : ℕ) (ps : List Text)
    → ps ≢ []
    → ps ≢ [] ∷ []
    → All (Lacks sep) ps
    → split_string (join_strings ps (sep ∷ [])) (sep ∷ []) ≡ some ps
split-join sep ps h k l =
    split_string-fields sep (join_strings ps (sep ∷ []))
    ∙ ap some (
        ap (loop_fields sep) (join_strings-spell (sep ∷ []) ps)
        ∙ loop_fields_of_ne sep _ (spell-ne-nil sep ps h k)
        ∙ fields-spell_of_Lacks sep ps h l)
