-- ===== src/Transformer/PayloadToPayload/Setup.antt =====
-- The setup of a payload-to-payload transformer, and what it does not check.
use mqttraffic_warden.Common.{
  ◌≡◌, refl, ◌⊎◌, Result, setup_failed, inl, inr, Bool, true, false, not, Text, str_eq, ok, throw,
  json_error, arith, Bool-cases, if◌then◌else◌,
}
use mqttraffic_warden.Json.{JsonOps, JsonLaws}
use mqttraffic_warden.Transformer.{
  JsonType, number, string, boolean, json_type_of, k_from, k_to, k_as, k_keep, k_types,
  k_type_number, k_type_string, k_type_boolean,
}
use mqttraffic_warden.Transformer.TopicToPayload.{as_type_of}
use mqttraffic_warden.Transformer.PayloadToPayload.{
  none_equal, is_valid_optional, is_valid_setup, setup,
}
use mqttraffic_warden.Transformer.TopicToPayload.Setup.{
  OptionalType, ConvertsTo, as_type_of-ConvertsTo,
}
use mqttraffic_warden.Transformer.PayloadToTopic.{keep_of}
use mqttraffic_warden.Transformer.PayloadToTopic.Setup.{Keeps, keep_of-Keeps}

eq-false_of_not : (b : Bool) → ok (not b) ≡ ok true → b ≡ false
eq-false_of_not true h = cc
eq-false_of_not false h = refl

-- A test that answers at once, or goes on to a test that answers.
if-total :
    (c : Bool) (r : Result Bool)
    → (b : Bool) × (r ≡ ok b)
    → (b : Bool) × ((if c then ok false else r) ≡ ok b)
if-total true r h = (false, refl)
if-total false r h = h

module _ {J F D : Type 0} (json : JsonOps J F D) (laws : JsonLaws json) where
  record Valid (j : J) : Type 0 where
    from_string : json.is_string (json.index j k_from) ≡ true
    to_string : json.is_string (json.index j k_to) ≡ true
    optional : is_valid_optional json j ≡ ok true

  Valid-setup : (j : J) → is_valid_setup json j ≡ ok true → Valid j
  unfolding is_valid_setup
  Valid-setup j h = record {
    from_string = ground arith;
    to_string = ground arith;
    optional = ground arith;
  }

  known_type : (s : Text) → none_equal s k_types ≡ false → (t : JsonType) × (json_type_of s ≡ ok t)
  unfolding json_type_of
  known_type s h = elim (Bool-cases (str_eq k_type_number s)) [
    | inl a ↦ (number, rw a)
    | inr a ↦ elim (Bool-cases (str_eq k_type_string s)) [
      | inl b ↦ (string, rw (a, b))
      | inr b ↦ elim (Bool-cases (str_eq k_type_boolean s)) [
        | inl c ↦ (boolean, rw (a, b, c))
        | inr c ↦ cc (rw (a, b, c) at h)
      ]
    ]
  ]

  valid_type :
      (j : J)
      → json.contains j k_as ≡ true
      → is_valid_optional json j ≡ ok true
      → (t : JsonType) × (as_type_of json j ≡ ok t)
  unfolding is_valid_optional as_type_of
  valid_type j c h = elim (Bool-cases (json.is_string (json.index j k_as))) [
    | inr b ↦ cc (simp (is_valid_optional, c, b) at h)
    | inl b ↦
        let (s, e) = laws.get_string_ok (json.index j k_as) b in
        let tested : ok (not (none_equal s k_types)) ≡ ok true =
          simp (is_valid_optional, c, b, laws.at_contains j k_as c, e) at h in
        let (t, f) = known_type s (eq-false_of_not _ tested) in (t, simp (as_type_of, c, e, f))
  ]

  -- A configuration with 'as' and a 'keep' that is no boolean is valid for `is_valid_setup`, and its
  -- setup throws the exception of nlohmann::json in place of a setup exception.
  pub setup_unchecked_keep :
      (j : J)
      → is_valid_setup json j ≡ ok true
      → json.contains j k_as ≡ true
      → json.contains j k_keep ≡ true
      → json.is_boolean (json.index j k_keep) ≡ false
      → setup json j ≡ throw json_error
  unfolding setup
  setup_unchecked_keep j v a k b =
      let valid = Valid-setup j v in
      let (from, ef) = laws.get_string_ok (json.index j k_from) valid.from_string in
      let (to, et) = laws.get_string_ok (json.index j k_to) valid.to_string in
      let (t, ea) = valid_type j a valid.optional in
      simp (setup, v, ef, et, ea, k, laws.get_bool_throws (json.index j k_keep) b)

  optional-total : (j : J) → (b : Bool) × (is_valid_optional json j ≡ ok b)
  unfolding is_valid_optional
  optional-total j = elim (Bool-cases (json.contains j k_as)) [
    | inl c ↦ elim (Bool-cases (json.is_string (json.index j k_as))) [
      | inl b ↦
          let (s, e) = laws.get_string_ok (json.index j k_as) b in
          (not (none_equal s k_types), simp (is_valid_optional, c, b, laws.at_contains j k_as c, e))
      | inr b ↦ (false, simp (is_valid_optional, c, b))
    ]
    | inr c ↦ rw c (if-total _ _ (true, refl))
  ]

  is_valid_setup-total : (j : J) → (b : Bool) × (is_valid_setup json j ≡ ok b)
  unfolding is_valid_setup
  is_valid_setup-total j = if-total (not (json.is_object j)) _ (
      if-total (not (json.contains j k_from)) _ (
        if-total (not (json.is_string (json.index j k_from))) _ (
          if-total (not (json.contains j k_to)) _
            (if-total (not (json.is_string (json.index j k_to))) _ (optional-total j)))))

  optional-type : (j : J) → is_valid_optional json j ≡ ok true → OptionalType json laws j
  unfolding is_valid_optional
  optional-type j h = elim (Bool-cases (json.contains j k_as)) [
    | inr c ↦ inl c
    | inl c ↦ elim (Bool-cases (json.is_string (json.index j k_as))) [
      | inl b ↦ inr (c, b)
      | inr b ↦ cc (simp (is_valid_optional, c, b) at h)
    ]
  ]

  type_of_valid :
      (j : J)
      → is_valid_optional json j ≡ ok true
      → (t : JsonType) × (as_type_of json j ≡ ok t) × ConvertsTo json laws j t
  type_of_valid j h = elim (as_type_of-ConvertsTo json laws j (optional-type j h)) [
    | inl r ↦ r
    | inr ((s, c, _, _), e) ↦ let (t, f) = valid_type j c h in cc (e, f)
  ]

  -- With a valid configuration, 'keep' is read or throws; it throws only beside an 'as'.
  keep_of_valid :
      (j : J)
      → is_valid_optional json j ≡ ok true
      → ((keep : Bool) × (keep_of json j ≡ ok keep) × Keeps json laws j keep)
        ⊎ ((json.contains j k_as ≡ true)
            × (json.contains j k_keep ≡ true)
            × (json.is_boolean (json.index j k_keep) ≡ false))
  unfolding is_valid_optional
  keep_of_valid j h = elim (Bool-cases (json.contains j k_keep)) [
    | inr k ↦ inl (keep_of-Keeps json laws j (inl k))
    | inl k ↦ elim (Bool-cases (json.is_boolean (json.index j k_keep))) [
      | inl b ↦ inl (keep_of-Keeps json laws j (inr (k, b)))
      | inr b ↦ elim (Bool-cases (json.contains j k_as)) [
        | inl c ↦ inr (c, k, b)
        | inr c ↦ cc (simp (is_valid_optional, c, k, b) at h)
      ]
    ]
  ]

  -- A configuration that is not valid is a setup error. A valid one is set up with its two strings as keys,
  -- with the type that 'as' names, unknown without that key, and with its boolean 'keep', false without
  -- that key, but for one case: with 'as' and a 'keep' that is no boolean, a configuration may be valid, and
  -- its setup throws the exception of nlohmann::json.
  pub setup_keys :
      (j : J)
      → ((is_valid_setup json j ≡ ok false) × (setup json j ≡ throw setup_failed))
        ⊎ (((is_valid_setup json j ≡ ok true)
              × (json.contains j k_as ≡ true)
              × (json.contains j k_keep ≡ true)
              × (json.is_boolean (json.index j k_keep) ≡ false)
              × (setup json j ≡ throw json_error))
            ⊎ ((from : Text) × (to : Text) × (t : JsonType) × (keep : Bool) × (json.get_string
                    (json.index j k_from)
                  ≡ ok from)
                × (json.get_string (json.index j k_to) ≡ ok to)
                × ConvertsTo json laws j t
                × Keeps json laws j keep
                × (setup json j
                    ≡ ok (record {
                      from_payload = from;
                      to_payload = to;
                      as_type = t;
                      keep = keep;
                    }))))
  unfolding setup
  setup_keys j =
      let (valid, v) = is_valid_setup-total j in
      elim (Bool-cases valid) [
        | inr b ↦
            let refused : is_valid_setup json j ≡ ok false = rw b at v in
            inl (refused, simp (setup, refused))
        | inl b ↦
            let accepted : is_valid_setup json j ≡ ok true = rw b at v in
            let parts = Valid-setup j accepted in
            let (from, ef) = laws.get_string_ok (json.index j k_from) parts.from_string in
            let (to, et) = laws.get_string_ok (json.index j k_to) parts.to_string in
            let (t, ea, c) = type_of_valid j parts.optional in
            inr (elim (keep_of_valid j parts.optional) [
              | inl (keep, ek, k) ↦
                  inr (from, to, t, keep, ef, et, c, k, simp (setup, accepted, ef, et, ea, ek))
              | inr (a, k, n) ↦ inl (accepted, a, k, n, setup_unchecked_keep j accepted a k n)
            ])
      ]
