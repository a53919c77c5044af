-- ===== src/Transformer/PayloadToTopic/Setup.antt =====
-- The setup of a payload-to-topic transformer.
use mqttraffic_warden.Common.{
  ℕ, ◌≡◌, refl, ◌⊎◌, inl, inr, Bool, true, false, Text, ok, throw, setup_failed, arith, Bool-cases,
}
use mqttraffic_warden.Json.{JsonOps, JsonLaws}
use mqttraffic_warden.Transformer.{k_from, k_to, k_keep}
use mqttraffic_warden.Transformer.Index.{stored_index, to_unsigned_long-to_signed}
use mqttraffic_warden.Transformer.PayloadToTopic.{is_valid_setup, keep_of, setup}

module _ {J F D : Type 0} (json : JsonOps J F D) (laws : JsonLaws json) where
  -- The key 'keep' holds a boolean, if it is there.
  abbrev pub OptionalKeep : J → Type 0
  OptionalKeep j =
      (json.contains j k_keep ≡ false)
      ⊎ ((json.contains j k_keep ≡ true) × (json.is_boolean (json.index j k_keep) ≡ true))

  record Valid (j : J) : Type 0 where
    from_string : json.is_string (json.index j k_from) ≡ true
    to_unsigned : json.is_number_unsigned (json.index j k_to) ≡ true
    keep_boolean : OptionalKeep j

  Valid-setup : (j : J) → is_valid_setup json j ≡ true → Valid j
  unfolding is_valid_setup
  Valid-setup j h = record {
    from_string = ground arith;
    to_unsigned = ground arith;
    keep_boolean = elim (Bool-cases (json.contains j k_keep)) [
      | inl b ↦ inr (b, ground arith)
      | inr b ↦ inl b
    ];
  }

  -- The value of the key 'keep', and false without the key.
  abbrev pub Keeps : J → Bool → Type 0
  Keeps j keep =
      ((json.contains j k_keep ≡ false) × (keep ≡ false))
      ⊎ ((json.contains j k_keep ≡ true) × (json.get_bool (json.index j k_keep) ≡ ok keep))

  pub keep_of-Keeps :
      (j : J) → OptionalKeep j → (keep : Bool) × (keep_of json j ≡ ok keep) × Keeps j keep
  keep_of-Keeps j v = elim v [
    | inl b ↦ (false, simp b, inl (b, refl))
    | inr (b, h) ↦
        let (keep, e) = laws.get_bool_ok (json.index j k_keep) h in (keep, simp (b, e), inr (b, e))
  ]

  -- A configuration that is valid is set up with its string as key, with the low 32 bits of its number,
  -- sign-extended to 64 bits, as index, and with its boolean 'keep', false without that key; any other is a
  -- setup error. No exception of nlohmann::json gets out.
  pub setup_key_and_index :
      (j : J)
      → ((is_valid_setup json j ≡ false) × (setup json j ≡ throw setup_failed))
        ⊎ ((from : Text) × (n : ℕ) × (keep : Bool) × (json.get_string (json.index j k_from)
              ≡ ok from)
            × (json.get_unsigned_long (json.index j k_to) ≡ ok n)
            × Keeps j keep
            × (setup json j
                ≡ ok (record { from_payload = from; to_topic = stored_index n; keep = keep })))
  unfolding setup
  setup_key_and_index j = elim (Bool-cases (is_valid_setup json j)) [
    | inr b ↦ inl (b, rw (b, setup))
    | inl b ↦
        let v = Valid-setup j b in
        let (from, ef) = laws.get_string_ok (json.index j k_from) v.from_string in
        let (n, _, en, fn) = laws.get_unsigned_ok (json.index j k_to) v.to_unsigned in
        let (keep, ek, k) = keep_of-Keeps j v.keep_boolean in
        inr (from, n, keep, ef, en, k, simp (setup, b, ef, fn, ek, ← to_unsigned_long-to_signed))
  ]
