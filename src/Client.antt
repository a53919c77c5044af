-- ===== src/Client.antt =====
-- `MqttClient` (src/mqtt_client.cpp) and the connection part of `MqttClientConnectionCallback`
-- (include/mqtt_client_connection_callback.h). A call of the Paho client that may throw has an argument
-- that says what it does.
pub mod Connection
pub mod Attempts
pub mod Logs
use mqttraffic_warden.Common.{
  ℕ, Bool, true, false, not, Option, none, some, List, [], ◌∷◌, ◌++◌, Text, str_eq, if◌then◌else◌,
}

-- What the Paho client is doing: nothing, an attempt whose outcome it will report, or a connection.
pub data Phase : Type 0 where
  down connecting up : Phase

-- The topics of the callback, the Paho client's phase, the subscriptions (topic and QoS) that have been
-- asked for on this connection, and whether an exception has left a callback.
pub record Client : Type 0 where
  pub topics_to_subscribe : List Text
  pub phase : Phase
  pub subscriptions : List (Text × ℕ)
  pub terminated : Bool

abbrev pub is_connected : Phase → Bool
is_connected up = true
is_connected connecting = false
is_connected down = false

-- `setTopicToSubscribe` of the callback.
abbrev pub set_topic_to_subscribe : List Text → Client → Client
set_topic_to_subscribe topics c = record c { topics_to_subscribe = topics }

-- `initCallback`: the message queue is a part of the gateway's state.
unfoldable pub init_callback : List Text → Client → Client
init_callback topics c = set_topic_to_subscribe topics c

-- `connect`, whose exception is logged: `accepted` says that the Paho client starts the attempt.
unfoldable pub connect : Bool → Client → Client
connect accepted c = if accepted then record c { phase = connecting } else c

-- `disconnect`, whose exception is logged.
unfoldable pub disconnect : Bool → Client → Client
disconnect done c =
    if is_connected c.phase
    then if done then record c { phase = down; subscriptions = [] } else c
    else c

abbrev pub remove_topic : Text → List (Text × ℕ) → List (Text × ℕ)
remove_topic topic [] = []
remove_topic topic ((t, qos) ∷ ts) =
    let rest = remove_topic topic ts in if str_eq t topic then rest else (t, qos) ∷ rest

unfoldable pub unsubscribe : Bool → Text → Client → Client
unsubscribe done topic c =
    if is_connected c.phase
    then if done then record c { subscriptions = remove_topic topic c.subscriptions } else c
    else c

-- `reconnect` of the callback: it sleeps, calls the Paho client once, and logs an exception.
unfoldable pub reconnect : Bool → Client → Client
unfolding connect
reconnect accepted c = connect accepted c

unfoldable pub on_failure : Bool → Client → Client
unfolding reconnect
on_failure accepted c = reconnect accepted c

unfoldable pub connection_lost : Bool → Client → Client
unfolding reconnect
connection_lost accepted c = reconnect accepted c

-- The loop of `connected`; `accepts` says for which topics `subscribe` does not throw.
unfoldable pub subscribe_all : (Text → Bool) → List Text → Client → Client
subscribe_all accepts [] c = c
subscribe_all accepts (t ∷ ts) c =
    let rest =
      subscribe_all accepts ts (record c { subscriptions = c.subscriptions ++ (t, 2) ∷ [] }) in
    if accepts t then rest else record c { terminated = true }

unfoldable pub connected : (Text → Bool) → Client → Client
unfolding subscribe_all
connected accepts c = subscribe_all accepts c.topics_to_subscribe c
