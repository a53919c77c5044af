-- ===== src/Transformer/TopicToTopic/Laws.antt =====
-- What a topic-to-topic transformer does on every branch.
use mqttraffic_warden.Common.{
  ℕ, ◌≤◌, ◌<◌, ◌≡◌, ◌≢◌, ◌∙◌, ◌⊎◌, inl, inr, true, false, some, [], ◌∷◌, ◌++◌, Text, leb, length,
  take, drop, get_elem?, get_elem?-some, All-get_elem?, ok, throw, setup_failed, execution_failed,
  arith, Bool-cases,
}
use mqttraffic_warden.Json.{JsonOps, JsonLaws}
use mqttraffic_warden.Strings.Fields.{Lacks, fields_of_Lacks}
use mqttraffic_warden.Topic.{split_topic, place_sub_topic}
use mqttraffic_warden.Topic.Laws.{split_topic-Lacks, split_topic-place_sub_topic}
use mqttraffic_warden.Transformer.{k_from, k_to}
use mqttraffic_warden.Transformer.Index.{stored_index, to_unsigned_long-to_signed}
use mqttraffic_warden.Transformer.TopicToTopic.{
  TopicToTopicTransformation, is_valid_setup, setup, execute,
}

-- `execute` with an index that the input topic has.
execute_found :
    (m : TopicToTopicTransformation) (i o sub : Text)
    → m.from_topic < length (split_topic i)
    → get_elem? (split_topic i) m.from_topic ≡ some sub
    → execute m i o ≡ ok (place_sub_topic m.to_topic sub o)
unfolding execute
execute_found m i o sub h e = ground arith

-- For an output topic that is not empty: if the input topic has no sub-topic at the index `fromTopic`,
-- there is an execution error; else the new output topic has the sub-topics of the old one, with
-- that sub-topic put in at the index `toTopic`, or at the end if there is no such index.
pub execute_sub_topics :
    (m : TopicToTopicTransformation) (input_topic output_topic : Text)
    → output_topic ≢ []
    → ((length (split_topic input_topic) ≤ m.from_topic)
        × (execute m input_topic output_topic ≡ throw execution_failed))
      ⊎ ((sub_topic : Text) × (new_topic : Text) × (get_elem? (split_topic input_topic) m.from_topic
            ≡ some sub_topic)
          × (execute m input_topic output_topic ≡ ok new_topic)
          × (split_topic new_topic
              ≡ take m.to_topic (split_topic output_topic)
                ++ sub_topic ∷ drop m.to_topic (split_topic output_topic)))
unfolding execute
execute_sub_topics m i o h = elim (Bool-cases (leb (length (split_topic i)) m.from_topic)) [
  | inl b ↦ inl (ground arith, rw b)
  | inr b ↦
      let within : m.from_topic < length (split_topic i) = ground arith in
      let (sub, e) = get_elem?-some (split_topic i) m.from_topic within in
      let whole =
        fields_of_Lacks b'/' sub
          (All-get_elem? (Lacks b'/') (split_topic i) m.from_topic sub (split_topic-Lacks i) e) in
      inr (
        sub,
        place_sub_topic m.to_topic sub o,
        e,
        execute_found m i o sub within e,
        split_topic-place_sub_topic m.to_topic sub o h ∙ rw whole,
      )
]

module _ {J F D : Type 0} (json : JsonOps J F D) (laws : JsonLaws json) where
  record Valid (j : J) : Type 0 where
    from_unsigned : json.is_number_unsigned (json.index j k_from) ≡ true
    to_unsigned : json.is_number_unsigned (json.index j k_to) ≡ true

  Valid-setup : (j : J) → is_valid_setup json j ≡ true → Valid j
  unfolding is_valid_setup
  Valid-setup j h = record { from_unsigned = ground arith; to_unsigned = ground arith }

  -- A configuration that is valid is set up, with the low 32 bits of its two numbers, sign-extended;
  -- any other is a setup error.
  pub setup_indices :
      (j : J)
      → ((is_valid_setup json j ≡ false) × (setup json j ≡ throw setup_failed))
        ⊎ ((n : ℕ) × (k : ℕ) × (json.get_unsigned_long (json.index j k_from) ≡ ok n)
            × (json.get_unsigned_long (json.index j k_to) ≡ ok k)
            × (setup json j
                ≡ ok (record { from_topic = stored_index n; to_topic = stored_index k })))
  unfolding setup
  setup_indices j = elim (Bool-cases (is_valid_setup json j)) [
    | inr b ↦ inl (b, rw (b, setup))
    | inl b ↦
        let v = Valid-setup j b in
        let (n, _, en, fn) = laws.get_unsigned_ok (json.index j k_from) v.from_unsigned in
        let (k, _, ek, fk) = laws.get_unsigned_ok (json.index j k_to) v.to_unsigned in
        inr (n, k, en, ek, simp (setup, b, fn, fk, ← to_unsigned_long-to_signed))
  ]
