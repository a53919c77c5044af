-- ===== src/Warden/Broker/Laws.antt =====
-- What `retrieve_broker_infos` may throw.
use mqttraffic_warden.Common.{
  inl, inr, Bool, true, false, Text, Result, ok, throw, ◌>>=◌, init_failed, setup_failed,
  execution_failed, out_of_range, json_error, mqtt_error, Bool-cases,
}
use mqttraffic_warden.Address.{is_valid_ip}
use mqttraffic_warden.Json.{JsonOps, JsonLaws}
use mqttraffic_warden.Warden.Broker.{
  mandatory_string, broker_address, client_id, keep_alive_interval, ssl, stores,
  retrieve_broker_infos, k_broker_address, k_broker_user, k_broker_password, k_client_id,
  k_keep_alive_interval, k_ssl, k_trust_store, k_key_store, k_private_key,
}

-- A step of the initialisation ends well or with the initialisation exception.
abbrev pub InitOnly {ℓ} : {A : Type ℓ} → Result A → Type 0
InitOnly (ok a) = Unit
InitOnly (throw init_failed) = Unit
InitOnly (throw setup_failed) = ⊥
InitOnly (throw execution_failed) = ⊥
InitOnly (throw out_of_range) = ⊥
InitOnly (throw json_error) = ⊥
InitOnly (throw mqtt_error) = ⊥

>>=-InitOnly {ℓ κ} :
    {A : Type ℓ} {B : Type κ} (m : Result A) (f : A → Result B)
    → InitOnly m
    → ((a : A) → InitOnly (f a))
    → InitOnly (m >>= f)
>>=-InitOnly (ok a) f h k = k a
>>=-InitOnly (throw init_failed) f h k = tt
>>=-InitOnly (throw setup_failed) f h k = h
>>=-InitOnly (throw execution_failed) f h k = h
>>=-InitOnly (throw out_of_range) f h k = h
>>=-InitOnly (throw json_error) f h k = h
>>=-InitOnly (throw mqtt_error) f h k = h

module _ {J F D : Type 0} (json : JsonOps J F D) (p : J) where
  module _ (laws : JsonLaws json) where
    mandatory_string-InitOnly : (k : Text) → InitOnly (mandatory_string json p k)
    unfolding mandatory_string
    mandatory_string-InitOnly k = elim (Bool-cases (json.contains p k)) [
      | inr c ↦ simp (mandatory_string, c) tt
      | inl c ↦ elim (Bool-cases (json.is_string (json.index p k))) [
        | inr s ↦ simp (mandatory_string, c, laws.at_contains p k c, s) tt
        | inl s ↦
            let (t, e) = laws.get_string_ok (json.index p k) s in
            simp (mandatory_string, c, laws.at_contains p k c, s, e) tt
      ]
    ]

    broker_address-InitOnly : InitOnly (broker_address json p)
    unfolding broker_address
    broker_address-InitOnly =
        >>=-InitOnly (mandatory_string json p k_broker_address) _
          (mandatory_string-InitOnly k_broker_address)
          λ host. (elim (Bool-cases (is_valid_ip host)) [ inl v ↦ rw v tt | inr v ↦ rw v tt ])

    client_id-InitOnly : InitOnly (client_id json p)
    unfolding client_id
    client_id-InitOnly = elim (Bool-cases (json.contains p k_client_id)) [
      | inr c ↦ simp (client_id, c) tt
      | inl c ↦ elim (Bool-cases (json.is_string (json.index p k_client_id))) [
        | inr s ↦ simp (client_id, c, laws.at_contains p k_client_id c, s) tt
        | inl s ↦
            let (t, e) = laws.get_string_ok (json.index p k_client_id) s in
            simp (client_id, c, laws.at_contains p k_client_id c, s, e) tt
      ]
    ]

    keep_alive_interval-InitOnly : InitOnly (keep_alive_interval json p)
    unfolding keep_alive_interval
    keep_alive_interval-InitOnly = elim (Bool-cases (json.contains p k_keep_alive_interval)) [
      | inr c ↦ simp (keep_alive_interval, c) tt
      | inl c ↦ elim (Bool-cases (json.is_number_unsigned (json.index p k_keep_alive_interval))) [
        | inr s ↦ simp (keep_alive_interval, c, laws.at_contains p k_keep_alive_interval c, s) tt
        | inl s ↦
            let (n, _, _, e) = laws.get_unsigned_ok (json.index p k_keep_alive_interval) s in
            simp (keep_alive_interval, c, laws.at_contains p k_keep_alive_interval c, s, e) tt
      ]
    ]

    ssl-InitOnly : InitOnly (ssl json p)
    unfolding ssl
    ssl-InitOnly = elim (Bool-cases (json.contains p k_ssl)) [
      | inr c ↦ simp (ssl, c) tt
      | inl c ↦ elim (Bool-cases (json.is_boolean (json.index p k_ssl))) [
        | inr s ↦ simp (ssl, c, laws.at_contains p k_ssl c, s) tt
        | inl s ↦
            let (b, e) = laws.get_bool_ok (json.index p k_ssl) s in
            simp (ssl, c, laws.at_contains p k_ssl c, s, e) tt
      ]
    ]

    stores-InitOnly : (b : Bool) → InitOnly (stores json p b)
    unfolding stores
    stores-InitOnly false = tt
    stores-InitOnly true = >>=-InitOnly _ _ (mandatory_string-InitOnly k_trust_store) λ t.
        >>=-InitOnly _ _ (mandatory_string-InitOnly k_key_store)
          λ k. >>=-InitOnly _ _ (mandatory_string-InitOnly k_private_key) λ q. tt

    -- Whatever the configuration is, the broker settings are read, or the initialisation exception is
    -- thrown; no exception of nlohmann::json gets out.
    pub retrieve_broker_infos-InitOnly : InitOnly (retrieve_broker_infos json p)
    unfolding retrieve_broker_infos
    retrieve_broker_infos-InitOnly = >>=-InitOnly _ _ broker_address-InitOnly λ host.
        >>=-InitOnly _ _ (mandatory_string-InitOnly k_broker_user) λ user.
          >>=-InitOnly _ _ (mandatory_string-InitOnly k_broker_password) λ password.
            >>=-InitOnly _ _ client_id-InitOnly λ client.
              >>=-InitOnly _ _ keep_alive_interval-InitOnly λ keep_alive.
                >>=-InitOnly _ _ ssl-InitOnly
                  λ l_ssl. >>=-InitOnly _ _ (stores-InitOnly l_ssl) λ found. tt
