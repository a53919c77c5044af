-- ===== src/Warden/Broker/Configured.antt =====
-- The client that `configure_mqtt_client` makes, read off the configuration.
use mqttraffic_warden.Common.{
  ◌≡◌, refl, sym, ap, ◌∙◌, ◌⊎◌, inl, inr, Bool, true, false, Option, none, some, [], Text, codes,
  ok, >>=-eq-ok, Bool-cases, pos, ℤ,
}
use mqttraffic_warden.Address.{is_valid_ip}
use mathlib.Core.Path.{subst}
use mqttraffic_warden.Json.{JsonOps, JsonLaws}
use mqttraffic_warden.Warden.Broker.{
  BrokerConfiguration, Stores, mandatory_string, broker_address, client_id, keep_alive_interval,
  ssl, stores, retrieve_broker_infos, all_stores, MqttClientArguments, configure_mqtt_client,
  k_broker_address, k_broker_user, k_broker_password, k_client_id, k_keep_alive_interval, k_ssl,
  k_trust_store, k_key_store, k_private_key,
}

module _ {J F D : Type 0} (json : JsonOps J F D) (p : J) where
  -- The configuration has the string at the key.
  abbrev pub HasString : Text → Text → Type 0
  HasString k t = (json.contains p k ≡ true) × (json.get_string (json.index p k) ≡ ok t)

  -- The three stores are those of the configuration.
  pub record HasStores (s : Stores) : Type 0 where
    pub trust : HasString (codes "trustStore") s.trust_store
    pub key : HasString (codes "keyStore") s.key_store
    pub private : HasString (codes "privateKey") s.private_key

  abbrev pub SslOf : Option Stores → Type 0
  SslOf o =
      ((json.get_bool (json.index p (codes "ssl")) ≡ ok true)
        × (s : Stores) × (o ≡ some s)
        × HasStores s)
      ⊎ ((json.get_bool (json.index p (codes "ssl")) ≡ ok false) × (o ≡ none))

  abbrev pub ClientIdOf : Text → Type 0
  ClientIdOf t =
      HasString (codes "clientId") t ⊎ ((json.contains p (codes "clientId") ≡ false) × (t ≡ []))

  abbrev pub KeepAliveOf : ℤ → Type 0
  KeepAliveOf i =
      ((json.contains p (codes "keepAliveInterval") ≡ true)
        × (json.get_int (json.index p (codes "keepAliveInterval")) ≡ ok i))
      ⊎ ((json.contains p (codes "keepAliveInterval") ≡ false) × (i ≡ pos 60))

  -- Each argument of the client is the value of its key.
  pub record IsConfigured (c : MqttClientArguments) : Type 0 where
    pub valid_address : is_valid_ip c.address ≡ true
    pub address_of : HasString (codes "brokerAddress") c.address
    pub user_of : HasString (codes "brokerUser") c.user
    pub password_of : HasString (codes "brokerPassword") c.password
    pub client_id_of : ClientIdOf c.client_id
    pub keep_alive_of : KeepAliveOf c.keep_alive_interval
    pub ssl_of : SslOf c.ssl_options

  module _ (laws : JsonLaws json) where
    mandatory_string-HasString : (k t : Text) → mandatory_string json p k ≡ ok t → HasString k t
    unfolding mandatory_string
    mandatory_string-HasString k t h = elim (Bool-cases (json.contains p k)) [
      | inr c ↦ absurd (cc (rw (mandatory_string, c) at h))
      | inl c ↦
          let found = laws.at_contains p k c in
          elim (Bool-cases (json.is_string (json.index p k))) [
            | inr s ↦ absurd (cc (rw (mandatory_string, c, found, s) at h))
            | inl s ↦ (c, rw (mandatory_string, c, found, s) at h)
          ]
    ]

    broker_address_of :
        (t : Text)
        → broker_address json p ≡ ok t
        → (is_valid_ip t ≡ true) × HasString k_broker_address t
    unfolding broker_address
    broker_address_of t h =
        let (host, e, h1) = >>=-eq-ok (mandatory_string json p k_broker_address) _ h in
        elim (Bool-cases (is_valid_ip host)) [
          | inr v ↦ absurd (cc (rw v at h1))
          | inl v ↦
              let same : host ≡ t = cc (rw v at h1) in
              (
                ap is_valid_ip (sym same) ∙ v,
                mandatory_string-HasString k_broker_address t (e ∙ ap ok same),
              )
        ]

    client_id-ClientIdOf : (t : Text) → client_id json p ≡ ok t → ClientIdOf t
    unfolding client_id
    client_id-ClientIdOf t h = elim (Bool-cases (json.contains p k_client_id)) [
      | inr c ↦ let same : [] ≡ t = cc (rw (client_id, c) at h) in inr (c, sym same)
      | inl c ↦
          let found = laws.at_contains p k_client_id c in
          elim (Bool-cases (json.is_string (json.index p k_client_id))) [
            | inr s ↦ absurd (cc (rw (client_id, c, found, s) at h))
            | inl s ↦ inl (c, rw (client_id, c, found, s) at h)
          ]
    ]

    keep_alive_interval-KeepAliveOf : (i : ℤ) → keep_alive_interval json p ≡ ok i → KeepAliveOf i
    unfolding keep_alive_interval
    keep_alive_interval-KeepAliveOf i h =
        elim (Bool-cases (json.contains p k_keep_alive_interval)) [
          | inr c ↦
              let same : pos 60 ≡ i = cc (rw (keep_alive_interval, c) at h) in inr (c, sym same)
          | inl c ↦
              let found = laws.at_contains p k_keep_alive_interval c in
              elim (Bool-cases (json.is_number_unsigned (json.index p k_keep_alive_interval))) [
                | inr s ↦ absurd (cc (rw (keep_alive_interval, c, found, s) at h))
                | inl s ↦ inl (c, rw (keep_alive_interval, c, found, s) at h)
              ]
        ]

    ssl_of_key : (b : Bool) → ssl json p ≡ ok b → json.get_bool (json.index p k_ssl) ≡ ok b
    unfolding ssl
    ssl_of_key b h = elim (Bool-cases (json.contains p k_ssl)) [
      | inr c ↦ absurd (cc (rw (ssl, c) at h))
      | inl c ↦
          let found = laws.at_contains p k_ssl c in
          elim (Bool-cases (json.is_boolean (json.index p k_ssl))) [
            | inr s ↦ absurd (cc (rw (ssl, c, found, s) at h))
            | inl s ↦ rw (ssl, c, found, s) at h
          ]
    ]

    stores-SslOf :
        (b : Bool) (o : Option Stores) → ssl json p ≡ ok b → stores json p b ≡ ok o → SslOf o
    unfolding stores
    stores-SslOf false o s h = let same : none ≡ o = cc h in inr (ssl_of_key false s, sym same)
    stores-SslOf true o s h =
        let (t, et, h1) = >>=-eq-ok (mandatory_string json p k_trust_store) _ h in
        let (k, ek, h2) = >>=-eq-ok (mandatory_string json p k_key_store) _ h1 in
        let (q, eq, h3) = >>=-eq-ok (mandatory_string json p k_private_key) _ h2 in
        let all : Stores = record { trust_store = t; key_store = k; private_key = q } in
        let same : some all ≡ o = cc h3 in
        inl (
          ssl_of_key true s,
          all,
          sym same,
          record {
            trust = mandatory_string-HasString k_trust_store t et;
            key = mandatory_string-HasString k_key_store k ek;
            private = mandatory_string-HasString k_private_key q eq;
          },
        )

    all_stores_lem :
        (found : Option Stores)
        → all_stores
            (elim found [ none ↦ none | some s ↦ some s.trust_store ])
            (elim found [ none ↦ none | some s ↦ some s.key_store ])
            (elim found [ none ↦ none | some s ↦ some s.private_key ])
          ≡ found
    all_stores_lem none = refl
    all_stores_lem (some s) = refl

    -- Settings that have been read, for which the constructor of the Paho client does not throw, give a client
    -- that talks to the valid IP address at brokerAddress, with the user, the password, the client id
    -- and the keep-alive interval at their keys, an empty client id and 60 without the last two keys;
    -- with the stores at trustStore, keyStore and privateKey if the value at ssl is true, and without
    -- SSL if it is false.
    pub configure_mqtt_client-IsConfigured :
        (accepts : Text → Text → Bool) (b : BrokerConfiguration) (c : MqttClientArguments)
        → retrieve_broker_infos json p ≡ ok b
        → configure_mqtt_client accepts b ≡ ok c
        → IsConfigured c
    unfolding retrieve_broker_infos configure_mqtt_client
    configure_mqtt_client-IsConfigured accepts b c h made =
        let (host, e0, h0) = >>=-eq-ok (broker_address json p) _ h in
        let (user, e1, h1) = >>=-eq-ok (mandatory_string json p k_broker_user) _ h0 in
        let (password, e2, h2) = >>=-eq-ok (mandatory_string json p k_broker_password) _ h1 in
        let (client, e3, h3) = >>=-eq-ok (client_id json p) _ h2 in
        let (keep_alive, e4, h4) = >>=-eq-ok (keep_alive_interval json p) _ h3 in
        let (l_ssl, e5, h5) = >>=-eq-ok (ssl json p) _ h4 in
        let (found, e6, h6) = >>=-eq-ok (stores json p l_ssl) _ h5 in
        let (valid, host_of) = broker_address_of host e0 in
        let same : b ≡ record {
          host = host;
          user = user;
          password = password;
          client_id = client;
          keep_alive_interval = keep_alive;
          trust_store = elim found [ none ↦ none | some s ↦ some s.trust_store ];
          key_store = elim found [ none ↦ none | some s ↦ some s.key_store ];
          private_key = elim found [ none ↦ none | some s ↦ some s.private_key ];
        } =
          cc h6 in
        elim (Bool-cases (accepts host client)) [
          | inr r ↦ absurd (cc (rw (same, configure_mqtt_client, r) at made))
          | inl r ↦
              let same' : record {
                address = host;
                client_id = client;
                user = user;
                password = password;
                keep_alive_interval = keep_alive;
                ssl_options = found;
              }
                  ≡ c =
                cc (rw (same, configure_mqtt_client, r, all_stores_lem found) at made) in
              subst IsConfigured same' (record {
                valid_address = valid;
                address_of = host_of;
                user_of = mandatory_string-HasString k_broker_user user e1;
                password_of = mandatory_string-HasString k_broker_password password e2;
                client_id_of = client_id-ClientIdOf client e3;
                keep_alive_of = keep_alive_interval-KeepAliveOf keep_alive e4;
                ssl_of = stores-SslOf l_ssl found e5 e6;
              })
        ]
