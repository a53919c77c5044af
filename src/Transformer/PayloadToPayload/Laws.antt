-- ===== src/Transformer/PayloadToPayload/Laws.antt =====
-- What a payload-to-payload transformer does on every branch, and what it does not check.
use mqttraffic_warden.Common.{
  ◌≡◌, refl, ap, ◌∙◌, inl, inr, true, false, not, ◌&&◌, none, some, Text, str_eq, ok, throw,
  >>=-eq-ok, json_error, Bool-cases, if◌then◌else◌,
}
use mqttraffic_warden.Json.{JsonOps, FloatOps, JsonLaws, member}
use mqttraffic_warden.Json.Members.{set-Assigned, erase-Erased}
use mqttraffic_warden.Transformer.{JsonType, json_type_unknown}
use mqttraffic_warden.Transformer.PayloadToPayload.{
  PayloadToPayloadTransformation, input_text, new_value, execute,
}

module _ {J F D : Type 0} (json : JsonOps J F D) (laws : JsonLaws json) where
  module _ (floats : FloatOps F D) where
    missing_value :
        (m : PayloadToPayloadTransformation) (t : JsonType) (i : J)
        → m.as_type ≡ t
        → json.contains i m.from_payload ≡ false
        → new_value json floats m i ≡ throw json_error
    unfolding new_value input_text
    missing_value m json_type_unknown i e h =
        simp (new_value, e, laws.at_missing i m.from_payload h)
    missing_value m _ i e h = simp (new_value, input_text, e, laws.at_missing i m.from_payload h)

    -- If the input payload lacks the key 'from', `execute` throws the exception of nlohmann::json, which
    -- is no execution error.
    pub execute_missing :
        (m : PayloadToPayloadTransformation) (input_payload output_payload : J)
        → json.contains input_payload m.from_payload ≡ false
        → execute json floats m input_payload output_payload ≡ throw json_error
    unfolding execute
    execute_missing m i o h = rw (missing_value m m.as_type i refl h)

    dropped_member :
        (m : PayloadToPayloadTransformation) (o v q p : J) (i : Text)
        → json.is_object q ≡ true
        → member json q i ≡ (if str_eq m.to_payload i then some v else member json o i)
        → (if not m.keep then json.erase q m.from_payload else ok q) ≡ ok p
        → member json p i ≡ (
            if not m.keep && str_eq m.from_payload i
            then none
            else if str_eq m.to_payload i
            then some v
            else member json o i)
    dropped_member m o v q p i obj mem e = elim (Bool-cases m.keep) [
      | inl b ↦ let same : q ≡ p = cc (simp b at e) in simp b (rw (← same) mem)
      | inr b ↦
          let (_, gone) = erase-Erased json laws q p m.from_payload obj (simp b at e) in
          simp b (gone i ∙ ap (λ x. if str_eq m.from_payload i then none else x) mem)
    ]

    -- A run that ends well on an output object assigns the value to the key 'to', erases the key 'from'
    -- unless it is to be kept, and leaves every other member as it was.
    pub execute_members :
        (m : PayloadToPayloadTransformation) (input_payload o p : J)
        → json.is_object o ≡ true
        → execute json floats m input_payload o ≡ ok p
        → (value : J) × (new_value json floats m input_payload ≡ ok value)
          × ((i : Text)
              → member json p i ≡ (
                  if not m.keep && str_eq m.from_payload i
                  then none
                  else if str_eq m.to_payload i
                  then some value
                  else member json o i))
    unfolding execute
    execute_members m ip o p h e =
        let (v, ev, e') = >>=-eq-ok (new_value json floats m ip) _ e in
        let (q, eq, e'') = >>=-eq-ok (json.set o m.to_payload v) _ e' in
        let (obj, mem) = set-Assigned json laws o v q m.to_payload h eq in
        (v, ev, λ i. dropped_member m o v q p i obj (mem i) e'')
