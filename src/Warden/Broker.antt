-- ===== src/Warden/Broker.antt =====
-- `retrieve_broker_infos` and `configure_mqtt_client`.
pub mod Laws
pub mod Configured
use mqttraffic_warden.Common.{
  ℕ, Bool, true, false, not, ◌&&◌, Option, none, some, List, [], ◌∷◌, Text, codes, if◌then◌else◌,
  Result, ok, throw, ◌>>=◌, init_failed, mqtt_error, ℤ, pos,
}
use mqttraffic_warden.Address.{is_valid_ip}
use mqttraffic_warden.Json.{JsonOps}

pub record BrokerConfiguration : Type 0 where
  pub host : Text
  pub user : Text
  pub password : Text
  pub client_id : Text
  pub keep_alive_interval : ℤ
  pub trust_store : Option Text
  pub key_store : Option Text
  pub private_key : Option Text

abbrev pub k_broker_address : Text
k_broker_address = codes "brokerAddress"

abbrev pub k_broker_password : Text
k_broker_password = codes "brokerPassword"

abbrev pub k_broker_user : Text
k_broker_user = codes "brokerUser"

abbrev pub k_client_id : Text
k_client_id = codes "clientId"

abbrev pub k_keep_alive_interval : Text
k_keep_alive_interval = codes "keepAliveInterval"

abbrev pub k_ssl : Text
k_ssl = codes "ssl"

abbrev pub k_trust_store : Text
k_trust_store = codes "trustStore"

abbrev pub k_key_store : Text
k_key_store = codes "keyStore"

abbrev pub k_private_key : Text
k_private_key = codes "privateKey"

abbrev pub k_default_client_id : Text
k_default_client_id = []

abbrev pub k_default_keep_alive_interval : ℤ
k_default_keep_alive_interval = pos 60

-- The three stores of a connection with SSL.
pub record Stores : Type 0 where
  pub trust_store : Text
  pub key_store : Text
  pub private_key : Text

module _ {J F D : Type 0} (json : JsonOps J F D) (p_configurations : J) where
  -- A key that is mandatory and must be a string.
  unfoldable pub mandatory_string : Text → Result Text
  mandatory_string k = if not (json.contains p_configurations k) then throw init_failed else do
    tested ← json.at p_configurations k
    if not (json.is_string tested) then throw init_failed else json.get_string tested

  unfoldable pub broker_address : Result Text
  broker_address = do
    host ← mandatory_string k_broker_address
    if not (is_valid_ip host) then throw init_failed else ok host

  unfoldable pub client_id : Result Text
  client_id =
      if not (json.contains p_configurations k_client_id) then ok k_default_client_id else do
        value ← json.at p_configurations k_client_id
        if not (json.is_string value) then throw init_failed else json.get_string value

  unfoldable pub keep_alive_interval : Result ℤ
  keep_alive_interval =
      if not (json.contains p_configurations k_keep_alive_interval)
      then ok k_default_keep_alive_interval
      else do
        value ← json.at p_configurations k_keep_alive_interval
        if not (json.is_number_unsigned value) then throw init_failed else json.get_int value

  unfoldable pub ssl : Result Bool
  ssl = if not (json.contains p_configurations k_ssl) then throw init_failed else do
    value ← json.at p_configurations k_ssl
    if not (json.is_boolean value) then throw init_failed else json.get_bool value

  -- "in case ssl is true, trustStore, keyStore and privateKey must be set otherwise they are set to
  -- std::nullopt"
  unfoldable pub stores : Bool → Result (Option Stores)
  stores false = ok none
  stores true = do
    trust ← mandatory_string k_trust_store
    key ← mandatory_string k_key_store
    private ← mandatory_string k_private_key
    ok (some (record { trust_store = trust; key_store = key; private_key = private }))

  unfoldable pub retrieve_broker_infos : Result BrokerConfiguration
  retrieve_broker_infos = do
    host ← broker_address
    user ← mandatory_string k_broker_user
    password ← mandatory_string k_broker_password
    client ← client_id
    keep_alive ← keep_alive_interval
    l_ssl ← ssl
    found ← stores l_ssl
    ok (record {
      host = host;
      user = user;
      password = password;
      client_id = client;
      keep_alive_interval = keep_alive;
      trust_store = elim found [ none ↦ none | some s ↦ some s.trust_store ];
      key_store = elim found [ none ↦ none | some s ↦ some s.key_store ];
      private_key = elim found [ none ↦ none | some s ↦ some s.private_key ];
    })

-- The arguments of the two constructors of `MqttClient`.
pub record MqttClientArguments : Type 0 where
  pub address : Text
  pub client_id : Text
  pub user : Text
  pub password : Text
  pub keep_alive_interval : ℤ
  pub ssl_options : Option Stores

abbrev pub all_stores : Option Text → Option Text → Option Text → Option Stores
all_stores (some t) (some k) (some p) =
    some (record { trust_store = t; key_store = k; private_key = p })
all_stores _ _ _ = none

-- The constructor that is chosen: with SSL if the three stores have a value. `accepts` says for which
-- addresses and client ids the constructor of `mqtt::async_client`, which both call, does not throw.
unfoldable pub configure_mqtt_client :
    (Text → Text → Bool) → BrokerConfiguration → Result MqttClientArguments
configure_mqtt_client accepts b =
    if accepts b.host b.client_id
    then ok (record {
      address = b.host;
      client_id = b.client_id;
      user = b.user;
      password = b.password;
      keep_alive_interval = b.keep_alive_interval;
      ssl_options = all_stores b.trust_store b.key_store b.private_key;
    })
    else throw mqtt_error
