-- ===== src/Transformer/Errors.antt =====
-- The exceptions of the four setups.
use mqttraffic_warden.Common.{
  refl, Bool, not, ◌&&◌, Text, str_eq, if◌then◌else◌, Result, ◌>>=◌, OnlyThrows, >>=-OnlyThrows,
}
use mqttraffic_warden.Json.{JsonOps, JsonLaws}
use mqttraffic_warden.Json.Errors.{
  setup_or_json, if-OnlyThrows, get_string-OnlyThrows, get_int-OnlyThrows, get_bool-OnlyThrows,
  at-OnlyThrows,
}
use mqttraffic_warden.Transformer.{
  k_from, k_to, k_as, k_keep, json_type_of, k_type_number, k_type_string, k_type_boolean,
}
use mqttraffic_warden.Transformer.TopicToTopic
use mqttraffic_warden.Transformer.PayloadToTopic
use mqttraffic_warden.Transformer.TopicToPayload
use mqttraffic_warden.Transformer.PayloadToPayload

abbrev Allowed {ℓ} : {A : Type ℓ} → Result A → Type 0
Allowed = OnlyThrows setup_or_json

bind {ℓ κ} :
    {A : Type ℓ} {B : Type κ} (m : Result A) (next : A → Result B)
    → Allowed m
    → ((a : A) → Allowed (next a))
    → Allowed (m >>= next)
bind m next h k = >>=-OnlyThrows setup_or_json m next h k

branch {ℓ} :
    {A : Type ℓ} (b : Bool) (r q : Result A) → Allowed r → Allowed q → Allowed (if b then r else q)
branch b r q h k = if-OnlyThrows setup_or_json b r q h k

json_type_of-Allowed : (s : Text) → Allowed (json_type_of s)
unfolding json_type_of
json_type_of-Allowed s =
    branch (str_eq k_type_number s) _ _ tt
      (branch (str_eq k_type_string s) _ _ tt (branch (str_eq k_type_boolean s) _ _ tt refl))

module _ {J F D : Type 0} (json : JsonOps J F D) (laws : JsonLaws json) (j : J) where
  string_at : (v : J) → Allowed (json.get_string v)
  string_at v = get_string-OnlyThrows setup_or_json json laws refl v

  int_at : (v : J) → Allowed (json.get_int v)
  int_at v = get_int-OnlyThrows setup_or_json json laws refl v

  bool_at : (v : J) → Allowed (json.get_bool v)
  bool_at v = get_bool-OnlyThrows setup_or_json json laws refl v

  keep_of-Allowed : Allowed (PayloadToTopic.keep_of json j)
  keep_of-Allowed = branch (json.contains j k_keep) _ _ (bool_at (json.index j k_keep)) tt

  as_type_of-Allowed : Allowed (TopicToPayload.as_type_of json j)
  unfolding TopicToPayload.as_type_of
  as_type_of-Allowed =
      branch (json.contains j k_as) _ _
        (bind _ _ (string_at (json.index j k_as)) λ s. json_type_of-Allowed s) tt

  pub topic_to_topic-OnlyThrows : OnlyThrows setup_or_json (TopicToTopic.setup json j)
  unfolding TopicToTopic.setup
  topic_to_topic-OnlyThrows = branch (not (TopicToTopic.is_valid_setup json j)) _ _ refl (
      bind _ _ (int_at (json.index j k_from))
        λ from. bind _ _ (int_at (json.index j k_to)) λ to. tt)

  pub payload_to_topic-OnlyThrows : OnlyThrows setup_or_json (PayloadToTopic.setup json j)
  unfolding PayloadToTopic.setup
  payload_to_topic-OnlyThrows = branch (not (PayloadToTopic.is_valid_setup json j)) _ _ refl (
      bind _ _ (string_at (json.index j k_from))
        λ from. bind _ _ (int_at (json.index j k_to)) λ to. bind _ _ keep_of-Allowed λ keep. tt)

  is_valid_optional-Allowed : Allowed (PayloadToPayload.is_valid_optional json j)
  unfolding PayloadToPayload.is_valid_optional
  is_valid_optional-Allowed =
      branch (json.contains j k_as) _ _
        (branch (not (json.is_string (json.index j k_as))) _ _ tt (
          bind _ _ (at-OnlyThrows setup_or_json json laws refl j k_as)
            λ value. bind _ _ (string_at value) λ s. tt))
        (branch (json.contains j k_keep && not (json.is_boolean (json.index j k_keep))) _ _ tt tt)

  is_valid_setup-Allowed : Allowed (PayloadToPayload.is_valid_setup json j)
  unfolding PayloadToPayload.is_valid_setup
  is_valid_setup-Allowed = branch (not (json.is_object j)) _ _ tt (
      branch (not (json.contains j k_from)) _ _ tt (
        branch (not (json.is_string (json.index j k_from))) _ _ tt (
          branch (not (json.contains j k_to)) _ _ tt
            (branch (not (json.is_string (json.index j k_to))) _ _ tt is_valid_optional-Allowed))))

  pub payload_to_payload-OnlyThrows : OnlyThrows setup_or_json (PayloadToPayload.setup json j)
  unfolding PayloadToPayload.setup
  payload_to_payload-OnlyThrows = bind _ _ is_valid_setup-Allowed λ valid.
      bind _ _ (branch valid _ _ (string_at (json.index j k_from)) refl) λ from.
        bind _ _ (string_at (json.index j k_to))
          λ to. bind _ _ as_type_of-Allowed λ as_type. bind _ _ keep_of-Allowed λ keep. tt
