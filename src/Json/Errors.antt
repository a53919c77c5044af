-- ===== src/Json/Errors.antt =====
-- What the calls of nlohmann::json may throw.
use mqttraffic_warden.Common.{
  ◌≡◌, refl, ap, ◌∙◌, inl, inr, Bool, true, false, Text, if◌then◌else◌, Result, ok, throw,
  Exception, init_failed, setup_failed, json_error, mqtt_error, OnlyThrows, Bool-cases,
}
use mqttraffic_warden.Json.{JsonOps, JsonLaws}

-- The exceptions of a setup, and those of the initialisation, with those of nlohmann::json.
abbrev pub setup_or_json : Exception → Bool
setup_or_json setup_failed = true
setup_or_json json_error = true
setup_or_json _ = false

abbrev pub init_or_json : Exception → Bool
init_or_json init_failed = true
init_or_json json_error = true
init_or_json _ = false

-- The exceptions of the initialisation, with those of nlohmann::json and of the Paho client.
abbrev pub init_json_or_mqtt : Exception → Bool
init_json_or_mqtt mqtt_error = true
init_json_or_mqtt init_failed = true
init_json_or_mqtt json_error = true
init_json_or_mqtt _ = false

module _ (allowed : Exception → Bool) where
  pub if-OnlyThrows {ℓ} :
      {A : Type ℓ} (b : Bool) (r q : Result A)
      → OnlyThrows allowed r
      → OnlyThrows allowed q
      → OnlyThrows allowed (if b then r else q)
  if-OnlyThrows true r q h k = h
  if-OnlyThrows false r q h k = k

  -- A result whose exceptions are those of nlohmann::json.
  only_json {ℓ} :
      {A : Type ℓ} (r : Result A)
      → allowed json_error ≡ true
      → ((e : Exception) → r ≡ throw e → e ≡ json_error)
      → OnlyThrows allowed r
  only_json (ok a) h k = tt
  only_json (throw e) h k = ap allowed (k e refl) ∙ h

  module _ {J F D : Type 0} (json : JsonOps J F D) (laws : JsonLaws json)
      (h : allowed json_error ≡ true) where
    pub get_string-OnlyThrows : (j : J) → OnlyThrows allowed (json.get_string j)
    get_string-OnlyThrows j = only_json (json.get_string j) h (laws.get_string_error j)

    pub get_int-OnlyThrows : (j : J) → OnlyThrows allowed (json.get_int j)
    get_int-OnlyThrows j = only_json (json.get_int j) h (laws.get_int_error j)

    pub get_bool-OnlyThrows : (j : J) → OnlyThrows allowed (json.get_bool j)
    get_bool-OnlyThrows j = elim (Bool-cases (json.is_boolean j)) [
      | inl b ↦ let (v, e) = laws.get_bool_ok j b in rw e tt
      | inr b ↦ rw (laws.get_bool_throws j b) h
    ]

    pub at-OnlyThrows : (j : J) (k : Text) → OnlyThrows allowed (json.at j k)
    at-OnlyThrows j k = elim (Bool-cases (json.contains j k)) [
      | inl c ↦ rw (laws.at_contains j k c) tt
      | inr c ↦ rw (laws.at_missing j k c) h
    ]
