-- ===== src/Transformer/PayloadToTopic/Laws.antt =====
-- What a payload-to-topic transformer does on every branch.
use mqttraffic_warden.Common.{
  ◌≡◌, ◌≢◌, refl, ap, ◌∙◌, inl, inr, true, false, not, ◌&&◌, none, [], ◌++◌, Text, take, drop,
  str_eq, str_eq_sound, ok, throw, >>=-eq-ok, execution_failed, arith, Bool-cases, if◌then◌else◌,
}
use mqttraffic_warden.Strings.Fields.{fields}
use mqttraffic_warden.Json.{JsonOps, FloatOps, JsonLaws, member}
use mqttraffic_warden.Json.Members.{erase-Erased}
use mqttraffic_warden.Topic.{split_topic, place_sub_topic}
use mqttraffic_warden.Topic.Laws.{split_topic-place_sub_topic}
use mqttraffic_warden.Transformer.PayloadToTopic.{
  PayloadToTopicTransformation, drop_payload, input_text, execute,
}

module _ {J F D : Type 0} (json : JsonOps J F D) (laws : JsonLaws json)
    (floats : FloatOps F D) where
  -- A key 'from' that the input payload lacks is an execution error.
  execute_missing :
      (m : PayloadToTopicTransformation) (i : J) (t : Text) (o : J)
      → json.contains i m.from_payload ≡ false
      → execute json floats m i t o ≡ throw execution_failed
  unfolding execute
  execute_missing m i t o h = ground arith

  absent_member :
      (o : J) (k i : Text)
      → json.contains o k ≡ false
      → member json o i ≡ (if str_eq k i then none else member json o i)
  absent_member o k i c = elim (Bool-cases (str_eq k i)) [
    | inl s ↦ rw s (rw (← str_eq_sound k i s) (rw c))
    | inr s ↦ rw s
  ]

  dropped_members :
      (m : PayloadToTopicTransformation) (o p : J) (i : Text)
      → json.is_object o ≡ true
      → drop_payload json m o ≡ ok p
      → member json p i ≡ (if not m.keep && str_eq m.from_payload i then none else member json o i)
  dropped_members m o p i h e = elim (Bool-cases m.keep) [
    | inl b ↦ let same : o ≡ p = cc (simp b at e) in simp b (rw (← same) refl)
    | inr b ↦ elim (Bool-cases (json.contains o m.from_payload)) [
      | inl c ↦
          let (_, gone) = erase-Erased json laws o p m.from_payload h (simp (b, c) at e) in
          simp b (gone i)
      | inr c ↦
          let same : o ≡ p = cc (simp (b, c) at e) in
          simp b (rw (← same) (absent_member o m.from_payload i c))
    ]
  ]

  -- A run that ends well on an output topic that is not empty and an output object: the sub-topics of the
  -- text of the value are put in at the index `toTopic`, or at the end, and the key 'from' is erased
  -- from the output object unless it is to be kept.
  pub execute_effect :
      (m : PayloadToTopicTransformation) (ip : J) (t t' : Text) (o p : J)
      → t ≢ []
      → json.is_object o ≡ true
      → execute json floats m ip t o ≡ ok (t', p)
      → (text : Text) × (input_text json floats m ip ≡ ok text)
        × (split_topic t'
            ≡ take m.to_topic (split_topic t)
              ++ (fields b'/' text ++ drop m.to_topic (split_topic t)))
        × ((i : Text)
            → member json p i
              ≡ (if not m.keep && str_eq m.from_payload i then none else member json o i))
  unfolding execute
  execute_effect m ip t t' o p ne h e =
      let (text, et, e') = >>=-eq-ok (input_text json floats m ip) _ e in
      let (q, eq, e'') = >>=-eq-ok (drop_payload json m o) _ e' in
      let placed : place_sub_topic m.to_topic text t ≡ t' = cc e'' in
      let same : q ≡ p = cc e'' in
      (
        text,
        et,
        rw (← placed) (split_topic-place_sub_topic m.to_topic text t ne),
        λ i. dropped_members m o p i h (eq ∙ ap ok same),
      )
