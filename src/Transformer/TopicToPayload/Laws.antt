-- ===== src/Transformer/TopicToPayload/Laws.antt =====
-- What a topic-to-payload transformer does on every branch.
use mqttraffic_warden.Common.{
  ◌≤◌, ◌≡◌, inl, inr, true, Option, none, some, Text, leb, length, get_elem?, Result, ok, throw,
  ◌>>=◌, execution_failed, arith, Bool-cases,
}
use mqttraffic_warden.Booleans.Laws.{is_bool-false}
use mqttraffic_warden.Json.{JsonOps, FloatOps, JsonLaws}
use mqttraffic_warden.Json.Members.{Assigned, set-Assigned}
use mqttraffic_warden.Topic.{split_topic}
use mqttraffic_warden.Topic.Laws.{vector_at_within}
use mqttraffic_warden.Transformer.{
  JsonType, number, string, boolean, object, array, null, json_type_unknown, to_number, SetupOnly,
}
use mqttraffic_warden.Transformer.TopicToPayload.{
  TopicToPayloadTransformation, catch_setup, setup, assign, execute,
}

catch_setup-SetupOnly {ℓ} : {A : Type ℓ} (r : Result A) → SetupOnly (catch_setup r)
catch_setup-SetupOnly (ok a) = tt
catch_setup-SetupOnly (throw e) = tt

module _ {J F D : Type 0} (json : JsonOps J F D) where
  -- Whatever nlohmann::json does, the setup ends well or with a setup exception.
  pub setup-SetupOnly : (j : J) → SetupOnly (setup json j)
  unfolding setup
  setup-SetupOnly j = catch_setup-SetupOnly _

  module _ (laws : JsonLaws json) (floats : FloatOps F D) where
    -- The value that a sub-topic is converted to; `none` for a conversion that assigns nothing.
    abbrev pub converted : JsonType → Text → Option (Result J)
    converted json_type_unknown s = some (ok (json.of_string s))
    converted string s = some (ok (json.of_string s))
    converted number s = some (to_number json floats s)
    converted boolean s = none
    converted object s = some (throw execution_failed)
    converted array s = some (throw execution_failed)
    converted null s = some (throw execution_failed)

    -- `p` is what `execute` leaves of the object `o` for the conversion `c`.
    abbrev pub Leaves : Option (Result J) → Text → J → J → Type 0
    Leaves none k o p = p ≡ o
    Leaves (some (ok v)) k o p = Assigned json laws o k v p
    Leaves (some (throw e)) k o p = ⊥

    set-Leaves :
        (r : Result J) (k : Text) (o p : J)
        → json.is_object o ≡ true
        → (r >>= λ v. json.set o k v) ≡ ok p
        → Leaves (some r) k o p
    set-Leaves (ok v) k o p h e = set-Assigned json laws o v p k h e
    set-Leaves (throw x) k o p h e = cc

    assign-Leaves :
        (t : JsonType) (k s : Text) (o p : J)
        → json.is_object o ≡ true
        → assign json floats t k s o ≡ ok p
        → Leaves (converted t s) k o p
    unfolding assign
    assign-Leaves json_type_unknown k s o p h e = set-Assigned json laws o _ p k h e
    assign-Leaves string k s o p h e = set-Assigned json laws o _ p k h e
    assign-Leaves boolean k s o p h e = cc (rw (is_bool-false s, assign) at e)
    assign-Leaves number k s o p h e = set-Leaves (to_number json floats s) k o p h e
    assign-Leaves object k s o p h e = cc
    assign-Leaves array k s o p h e = cc
    assign-Leaves null k s o p h e = cc

    -- A run that ends well on an output object has read the sub-topic at the index `fromTopic`, and
    -- leaves the object with its conversion at the key 'to' and every other member as it was. As a
    -- boolean, it leaves the object unchanged, whatever the sub-topic is.
    pub execute-Leaves :
        (m : TopicToPayloadTransformation) (input_topic : Text) (o p : J)
        → json.is_object o ≡ true
        → execute json floats m input_topic o ≡ ok p
        → (sub_topic : Text) × (get_elem? (split_topic input_topic) m.from_topic ≡ some sub_topic)
          × Leaves (converted m.as_type sub_topic) m.to_payload o p
    unfolding execute
    execute-Leaves m i o p h e = elim (Bool-cases (leb (length (split_topic i)) m.from_topic)) [
      | inl b ↦ cc (rw (b, execute) at e)
      | inr b ↦
          let (sub, f, g) = vector_at_within (split_topic i) m.from_topic (ground arith) in
          (sub, f, assign-Leaves m.as_type m.to_payload sub o p h (simp (b, g, execute) at e))
    ]

    -- An input topic that has no sub-topic at the index is an execution error.
    execute_missing :
        (m : TopicToPayloadTransformation) (input_topic : Text) (o : J)
        → length (split_topic input_topic) ≤ m.from_topic
        → execute json floats m input_topic o ≡ throw execution_failed
    unfolding execute
    execute_missing m i o h = ground arith
