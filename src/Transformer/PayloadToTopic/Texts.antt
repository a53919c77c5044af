-- ===== src/Transformer/PayloadToTopic/Texts.antt =====
-- The text that a payload-to-topic transformer makes of a value of the payload.
use mqttraffic_warden.Common.{
  ℕ, ◌%◌, ◌≡◌, refl, ap, ◌∙◌, ◌⊎◌, inl, inr, true, false, Option, none, some, [], ◌∷◌, Text, Result,
  ok, throw, execution_failed, Bool-cases, pattern_of, if◌then◌else◌, ℤ, pos, negsuc, arith,
}
use mqttraffic_warden.Json.{JsonOps, FloatOps, JsonLaws}
use mqttraffic_warden.Json.Utilities.{json_to_string, assign_char}
use mqttraffic_warden.Transformer.PayloadToTopic.{PayloadToTopicTransformation, input_text}

low_byte : (i : ℤ) → assign_char (pattern_of 8 i) ≡ pattern_of 8 i ∷ []
low_byte (pos n) = ap (λ b. b ∷ []) (omega arith)
low_byte (negsuc n) = ap (λ b. b ∷ []) (omega arith)

module _ {J F D : Type 0} (json : JsonOps J F D) (floats : FloatOps F D) where
  -- What kind of value it is, in the order in which the tests tell them apart: a string, a boolean, an
  -- unsigned number, another integer, a floating-point number, or none of these.
  pub data Kind : Type 0 where
    a_string a_boolean an_unsigned an_integer a_float no_text : Kind

  abbrev pub kind_of : J → Kind
  kind_of v =
      if json.is_string v
      then a_string
      else if json.is_boolean v
      then a_boolean
      else if json.is_number_unsigned v
      then an_unsigned
      else if json.is_number_integer v
      then an_integer
      else if json.is_number_float v
      then a_float
      else no_text

  -- The text of a value of a kind: a string as it is, the byte 1 or 0 of a boolean, the low byte of an
  -- integer, and the conversion of a floating-point number.
  abbrev pub TextOf : J → Kind → Option Text → Type 0
  TextOf v a_string o = (s : Text) × (json.get_string v ≡ ok s) × (o ≡ some s)
  TextOf v a_boolean o =
      ((json.get_bool v ≡ ok true) × (o ≡ some (1 ∷ [])))
      ⊎ ((json.get_bool v ≡ ok false) × (o ≡ some (0 ∷ [])))
  TextOf v an_unsigned o = (n : ℕ) × (json.get_unsigned_long v ≡ ok n) × (o ≡ some (n % 256 ∷ []))
  TextOf v an_integer o = (i : ℤ) × (json.get_long v ≡ ok i) × (o ≡ some (pattern_of 8 i ∷ []))
  TextOf v a_float o =
      (d : D) × (json.get_double v ≡ ok d) × (o ≡ some (floats.to_char d % 256 ∷ []))
  TextOf v no_text o = o ≡ none

  abbrev Stored : J → Type 0
  Stored v = (o : Option Text) × (json_to_string json floats v ≡ ok o) × TextOf v (kind_of v) o

  module _ (laws : JsonLaws json) where
    boolean-Stored : (v : J) → json.is_string v ≡ false → json.is_boolean v ≡ true → Stored v
    unfolding json_to_string
    boolean-Stored v s b =
        let (t, e) = laws.get_bool_ok v b in
        elim (Bool-cases t) [
          | inl h ↦
              let e' : json.get_bool v ≡ ok true = e ∙ ap ok h in
              (some (1 ∷ []), simp (json_to_string, s, b, e'), rw (s, b) (inl (e', refl)))
          | inr h ↦
              let e' : json.get_bool v ≡ ok false = e ∙ ap ok h in
              (some (0 ∷ []), simp (json_to_string, s, b, e'), rw (s, b) (inr (e', refl)))
        ]

    number-Stored : (v : J) → json.is_string v ≡ false → json.is_boolean v ≡ false → Stored v
    unfolding json_to_string
    number-Stored v s b = elim (Bool-cases (json.is_number_unsigned v)) [
      | inl u ↦
          let (n, _, e, _) = laws.get_unsigned_ok v u in
          (some (n % 256 ∷ []), simp (json_to_string, s, b, u, e), rw (s, b, u) (n, e, refl))
      | inr u ↦ elim (Bool-cases (json.is_number_integer v)) [
        | inl i ↦
            let (n, e) = laws.get_long_ok v i in
            (
              some (assign_char (pattern_of 8 n)),
              simp (json_to_string, s, b, u, i, e),
              rw (s, b, u, i) (n, e, ap some (low_byte n)),
            )
        | inr i ↦ elim (Bool-cases (json.is_number_float v)) [
          | inl f ↦
              let (d, e) = laws.get_double_ok v f in
              (
                some (floats.to_char d % 256 ∷ []),
                simp (json_to_string, s, b, u, i, f, e),
                rw (s, b, u, i, f) (d, e, refl),
              )
          | inr f ↦ (none, simp (json_to_string, s, b, u, i, f), rw (s, b, u, i, f) refl)
        ]
      ]
    ]

    value-Stored : (v : J) → Stored v
    unfolding json_to_string
    value-Stored v = elim (Bool-cases (json.is_string v)) [
      | inl s ↦
          let (t, e) = laws.get_string_ok v s in
          (some t, simp (json_to_string, s, e), rw s (t, e, refl))
      | inr s ↦ elim (Bool-cases (json.is_boolean v)) [
        | inr b ↦ number-Stored v s b
        | inl b ↦ boolean-Stored v s b
      ]
    ]

    -- What `none` becomes.
    abbrev pub or_failed : Option Text → Result Text
    or_failed none = throw execution_failed
    or_failed (some t) = ok t

    converted :
        (o : Option Text) → (elim o [ none ↦ throw execution_failed | some t ↦ ok t ]) ≡ or_failed o
    converted none = refl
    converted (some t) = refl

    -- What the text of the key from is, for every input payload: without the key, an execution error; a
    -- string is taken as it is; true becomes the byte 1 and false the byte 0; an unsigned number becomes
    -- the one byte that it is modulo 256, another integer the low byte of its two's complement, and a
    -- floating-point number the byte that it converts to; null, an array and an object are an execution
    -- error. No other exception gets out.
    pub input_text_outcomes :
        (m : PayloadToTopicTransformation) (i : J)
        → ((json.contains i m.from_payload ≡ false)
            × (input_text json floats m i ≡ throw execution_failed))
          ⊎ ((json.contains i m.from_payload ≡ true)
              × (o : Option Text) × (input_text json floats m i ≡ or_failed o)
              × TextOf (json.index i m.from_payload) (kind_of (json.index i m.from_payload)) o)
    unfolding input_text
    input_text_outcomes m i = elim (Bool-cases (json.contains i m.from_payload)) [
      | inr c ↦ inl (c, simp (input_text, c))
      | inl c ↦
          let found = laws.at_contains i m.from_payload c in
          let (o, r, h) = value-Stored (json.index i m.from_payload) in
          inr (c, o, simp (input_text, c, found, r) (converted o), h)
    ]
