-- ===== src/Transformer/TopicToPayload/Setup.antt =====
-- The setup of a topic-to-payload transformer.
use mqttraffic_warden.Common.{
  ℕ, ◌≡◌, ◌≢◌, refl, sym, ◌⊎◌, inl, inr, true, false, Text, str_eq, str_eq_sound, str_eq_iff, ok,
  throw, setup_failed, arith, Bool-cases,
}
use mqttraffic_warden.Json.{JsonOps, JsonLaws}
use mqttraffic_warden.Transformer.{
  k_from, k_to, k_as, JsonType, number, string, boolean, json_type_unknown, json_type_of,
  k_type_number, k_type_string, k_type_boolean,
}
use mqttraffic_warden.Transformer.Index.{stored_index, to_unsigned_long-to_signed}
use mqttraffic_warden.Transformer.TopicToPayload.{is_valid_setup, as_type_of, setup}

-- The text names the type.
abbrev pub Names : Text → JsonType → Type 0
Names s t =
    ((s ≡ k_type_number) × (t ≡ number))
    ⊎ (((s ≡ k_type_string) × (t ≡ string)) ⊎ ((s ≡ k_type_boolean) × (t ≡ boolean)))

-- The text names no type.
abbrev pub NamesNone : Text → Type 0
NamesNone s = (s ≢ k_type_number) × (s ≢ k_type_string) × (s ≢ k_type_boolean)

unlike : (k s : Text) → str_eq k s ≡ false → s ≢ k
unlike k s b = λ e. cc (b, (str_eq_iff k s).1 (sym e))

json_type_of-Names :
    (s : Text)
    → ((t : JsonType) × (json_type_of s ≡ ok t) × Names s t)
      ⊎ (NamesNone s × (json_type_of s ≡ throw setup_failed))
unfolding json_type_of
json_type_of-Names s = elim (Bool-cases (str_eq k_type_number s)) [
  | inl a ↦ inl (number, simp (json_type_of, a), inl (cc (str_eq_sound k_type_number s a), refl))
  | inr a ↦ elim (Bool-cases (str_eq k_type_string s)) [
    | inl b ↦
        inl
          (string, simp (json_type_of, a, b), inr (inl (cc (str_eq_sound k_type_string s b), refl)))
    | inr b ↦ elim (Bool-cases (str_eq k_type_boolean s)) [
      | inl c ↦ inl (
        boolean,
        simp (json_type_of, a, b, c),
        inr (inr (cc (str_eq_sound k_type_boolean s c), refl)),
      )
      | inr c ↦ inr (
        (unlike k_type_number s a, unlike k_type_string s b, unlike k_type_boolean s c),
        simp (json_type_of, a, b, c),
      )
    ]
  ]
]

module _ {J F D : Type 0} (json : JsonOps J F D) (laws : JsonLaws json) where
  -- The key 'as' holds a string, if it is there.
  abbrev pub OptionalType : J → Type 0
  OptionalType j =
      (json.contains j k_as ≡ false)
      ⊎ ((json.contains j k_as ≡ true) × (json.is_string (json.index j k_as) ≡ true))

  record Valid (j : J) : Type 0 where
    from_unsigned : json.is_number_unsigned (json.index j k_from) ≡ true
    to_string : json.is_string (json.index j k_to) ≡ true
    as_string : OptionalType j

  Valid-setup : (j : J) → is_valid_setup json j ≡ true → Valid j
  unfolding is_valid_setup
  Valid-setup j h = record {
    from_unsigned = ground arith;
    to_string = ground arith;
    as_string = elim (Bool-cases (json.contains j k_as)) [
      | inl b ↦ inr (b, ground arith)
      | inr b ↦ inl b
    ];
  }

  -- The type of the key 'as', and unknown without the key.
  abbrev pub ConvertsTo : J → JsonType → Type 0
  ConvertsTo j t =
      ((json.contains j k_as ≡ false) × (t ≡ json_type_unknown))
      ⊎ ((s : Text) × (json.contains j k_as ≡ true)
          × (json.get_string (json.index j k_as) ≡ ok s)
          × Names s t)

  -- The key 'as' holds a string that names no type.
  abbrev pub ConvertsToNone : J → Type 0
  ConvertsToNone j =
      (s : Text) × (json.contains j k_as ≡ true)
      × (json.get_string (json.index j k_as) ≡ ok s)
      × NamesNone s

  pub as_type_of-ConvertsTo :
      (j : J)
      → OptionalType j
      → ((t : JsonType) × (as_type_of json j ≡ ok t) × ConvertsTo j t)
        ⊎ (ConvertsToNone j × (as_type_of json j ≡ throw setup_failed))
  unfolding as_type_of
  as_type_of-ConvertsTo j v = elim v [
    | inl b ↦ inl (json_type_unknown, simp (as_type_of, b), inl (b, refl))
    | inr (b, h) ↦
        let (s, e) = laws.get_string_ok (json.index j k_as) h in
        elim (json_type_of-Names s) [
          | inl (t, n, q) ↦ inl (t, simp (as_type_of, b, e, n), inr (s, b, e, q))
          | inr (q, n) ↦ inr ((s, b, e, q), simp (as_type_of, b, e, n))
        ]
  ]

  -- A configuration that is not valid, or whose key 'as' names none of the three types, is a setup error.
  -- Any other is set up with the low 32 bits of its number, sign-extended to 64 bits, as index, with its
  -- string as key, and with the type that 'as' names, unknown without that key.
  pub setup_index_and_key :
      (j : J)
      → (((is_valid_setup json j ≡ false) ⊎ ConvertsToNone j) × (setup json j ≡ throw setup_failed))
        ⊎ ((n : ℕ) × (to : Text) × (t : JsonType) × (json.get_unsigned_long (json.index j k_from)
              ≡ ok n)
            × (json.get_string (json.index j k_to) ≡ ok to)
            × ConvertsTo j t
            × (setup json j
                ≡ ok (record { from_topic = stored_index n; to_payload = to; as_type = t })))
  unfolding setup
  setup_index_and_key j = elim (Bool-cases (is_valid_setup json j)) [
    | inr b ↦ inl (inl b, rw (b, setup))
    | inl b ↦
        let v = Valid-setup j b in
        let (n, _, en, fn) = laws.get_unsigned_ok (json.index j k_from) v.from_unsigned in
        let (to, et) = laws.get_string_ok (json.index j k_to) v.to_string in
        elim (as_type_of-ConvertsTo j v.as_string) [
          | inl (t, e, c) ↦
              inr (n, to, t, en, et, c, simp (setup, b, fn, et, e, ← to_unsigned_long-to_signed))
          | inr (r, e) ↦ inl (inr r, simp (setup, b, fn, et, e))
        ]
  ]
