-- ===== src/Client/Logs.antt =====
-- The callbacks that only write in the log: `MqttSubscribeActionListener`
-- (include/mqtt_subscribe_action_listener.h), and `delivery_complete` of `MqttClientConnectionCallback`
-- (include/mqtt_client_connection_callback.h).
use mqttraffic_warden.Common.{
  ◌==◌, Bool, false, not, Option, none, some, List, [], ◌∷◌, ◌++◌, Text, codes, if◌then◌else◌, ℤ,
  pos, negsuc,
}
use mqttraffic_warden.Logging.{LogLevel, trace, info, error, LogArgument, of_int, of_text, LogLine}

-- What the callbacks read of a `mqtt::token`; `none` is a null pointer in place of the topics.
pub record Token : Type 0 where
  pub message_id : ℤ
  pub topics : Option (List Text)

abbrev pub is_zero : ℤ → Bool
is_zero (pos n) = n == 0
is_zero (negsuc n) = false

abbrev pub line : LogLevel → Text → List LogArgument → LogLine
line level format arguments = record { level = level; format = format; arguments = arguments }

-- `on_failure` of the listener.
unfoldable pub on_failure : Token → List LogLine
on_failure tok =
    line error (codes "Subscription failure") []
    ∷ (if not (is_zero tok.message_id)
        then line error (codes " for token: [{}]") (of_int tok.message_id ∷ []) ∷ []
        else [])

-- `if (top && !top->empty())`
abbrev pub first_topic : Option (List Text) → List LogLine
first_topic none = []
first_topic (some []) = []
first_topic (some (t ∷ ts)) = line info (codes "\ttoken topic: '{}', ...") (of_text t ∷ []) ∷ []

-- `on_success` of the listener.
unfoldable pub on_success : Token → List LogLine
on_success tok =
    line info (codes "Successfully subscribed") []
    ∷ ((if not (is_zero tok.message_id)
          then line info (codes " for token: [{}]") (of_int tok.message_id ∷ []) ∷ []
          else [])
        ++ first_topic tok.topics)

-- What `delivery_complete` reads of a `mqtt::delivery_token` and its message.
pub record DeliveryToken : Type 0 where
  pub message_id : ℤ
  pub topic : Text
  pub payload : Text

-- `none` is undefined behaviour: the token is tested for its id, and dereferenced for its message in any
-- case.
unfoldable pub delivery_complete : Option DeliveryToken → Option (List LogLine)
delivery_complete none = none
delivery_complete (some token) = some (
    line trace (codes "Delivery complete for token: '{}'\n\ttopic: {}\n\tpayload: '{}'")
      (of_int token.message_id ∷ of_text token.topic ∷ of_text token.payload ∷ [])
    ∷ [])
