-- ===== src/Warden/Gateway.antt =====
-- The client and the threads together: the connection of src/mqtt_client.cpp feeds and drains the queues of
-- src/traffic_warden.cpp.
pub mod Incoming
pub mod Routed
pub mod Runs
pub mod Publications
pub mod Delivered
pub mod Failures
pub mod Named
pub mod Arrivals
use mqttraffic_warden.Common.{ℕ, ◌≡◌, ◌||◌, Bool, true, false, List, [], ◌∷◌, Text}
use mqttraffic_warden.Json.{JsonOps, FloatOps}
use mqttraffic_warden.Queue.{QueueOps}
use mqttraffic_warden.Client.{Client, is_connected}
use mqttraffic_warden.Client.Connection.{Report}
use mqttraffic_warden.Warden.Routes.{RouteConfigurations}
use mqttraffic_warden.Warden.Pipeline.{State, Message, Work}
use mqttraffic_warden.Warden.Pipeline.Schedule.{
  Event, arrives, ingests, transforms, publishes, step,
}

pub record Gateway (J M W : Type 0) : Type 0 where
  pub pipeline : State J M W
  pub client : Client

-- `matches filter topic` says that a subscription of `filter` is for messages of `topic`.
module _ {J F D M W : Type 0} (json : JsonOps J F D) (floats : FloatOps F D)
    (messages : QueueOps (Message J) M) (works : QueueOps (Work J) W) (routes : RouteConfigurations)
    (matches : Text → Text → Bool) where
  abbrev pub after_event : Event → Gateway J M W → Gateway J M W
  after_event e g = record g { pipeline = step json floats messages works routes e g.pipeline }

  -- There is a subscription for the topic.
  abbrev pub is_subscribed : Text → List (Text × ℕ) → Bool
  is_subscribed topic [] = false
  is_subscribed topic ((filter, qos) ∷ rest) = matches filter topic || is_subscribed topic rest

  -- The Paho client reports on the connection; the broker delivers a message that a subscription of the
  -- connection asks for; a thread makes a step. A publication is taken exactly if there is a connection.
  -- No move is left when an exception has left a callback on the connection.
  pub data Move : Gateway J M W → Gateway J M W → Type 0 where
    reported :
        {g : Gateway J M W} {d : Client} → Report g.client d → Move g (record g { client = d })
    delivered :
        {g : Gateway J M W} (topic text : Text)
        → g.client.terminated ≡ false
        → is_connected g.client.phase ≡ true
        → is_subscribed topic g.client.subscriptions ≡ true
        → Move g (after_event (arrives topic text) g)
    ingested : {g : Gateway J M W} → g.client.terminated ≡ false → Move g (after_event ingests g)
    transformed :
        {g : Gateway J M W} → g.client.terminated ≡ false → Move g (after_event transforms g)
    published :
        {g : Gateway J M W}
        → g.client.terminated ≡ false
        → Move g (after_event (publishes (is_connected g.client.phase)) g)

  pub data Moves : Gateway J M W → Gateway J M W → Type 0 where
    at_start : {g : Gateway J M W} → Moves g g
    further : {g h k : Gateway J M W} → Moves g h → Move h k → Moves g k
