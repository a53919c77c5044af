-- ===== src/Warden/Pipeline/Schedule.antt =====
-- Runs of the gateway: the callback and the three threads in any order.
use mqttraffic_warden.Common.{Bool, List, [], ◌∷◌, ◌++◌, Text, if◌then◌else◌, Result, ok, throw}
use mqttraffic_warden.Json.{JsonOps, FloatOps}
use mqttraffic_warden.Queue.{QueueOps}
use mqttraffic_warden.Warden.Routes.{RouteConfigurations}
use mqttraffic_warden.Warden.Pipeline.{
  State, Message, Work, terminate, message_arrived, ingest, transform, publish,
}

-- What happens next: a message arrives, or a thread makes a step. `publishes false` is a step in
-- which the client throws.
pub data Event : Type 0 where
  arrives : Text → Text → Event
  ingests transforms : Event
  publishes : Bool → Event

abbrev pub arrived : {J : Type 0} → Text → Result J → List (Message J)
arrived topic (ok payload) = (topic, payload) ∷ []
arrived topic (throw e) = []

module _ {J F D : Type 0} (json : JsonOps J F D) where
  -- The messages that arrive in a run.
  abbrev pub delivery : Event → List (Message J)
  delivery (arrives topic text) = arrived topic (json.parse text)
  delivery ingests = []
  delivery transforms = []
  delivery (publishes taken) = []

  unfoldable pub deliveries : List Event → List (Message J)
  deliveries [] = []
  deliveries (e ∷ es) = delivery e ++ deliveries es

module _ {J F D M W : Type 0} (json : JsonOps J F D) (floats : FloatOps F D)
    (messages : QueueOps (Message J) M) (works : QueueOps (Work J) W)
    (routes : RouteConfigurations) where
  -- An exception that leaves the callback counts like one that leaves a thread.
  unfoldable pub or_terminate : State J M W → Result (State J M W) → State J M W
  or_terminate s (ok s') = s'
  or_terminate s (throw e) = terminate s

  unfoldable pub act : Event → State J M W → State J M W
  unfolding or_terminate message_arrived ingest transform publish
  act (arrives topic text) s =
      or_terminate s (message_arrived json floats messages works topic text s)
  act ingests s = ingest json floats messages works routes s
  act transforms s = transform json floats messages works s
  act (publishes taken) s = publish json floats messages works taken s

  -- A process that has been terminated does nothing more.
  unfoldable pub step : Event → State J M W → State J M W
  unfolding act
  step e s = if s.terminated then s else act e s

  unfoldable pub run : List Event → State J M W → State J M W
  unfolding step
  run [] s = s
  run (e ∷ es) s = run es (step e s)
