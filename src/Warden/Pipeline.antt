-- ===== src/Warden/Pipeline.antt =====
-- The three threads of `TrafficWarden` (src/traffic_warden.cpp: `ingest`, `transform`, `publish`)
-- over the three queues, and the callback that feeds them
-- (include/mqtt_client_connection_callback.h: `message_arrived`). A thread's step is one that the
-- others can see: to pop a queue, or to push one value.
pub mod Schedule
pub mod Alive
pub mod Frames
pub mod Ended
pub mod Owed
pub mod Conservation
pub mod Outcomes
pub mod Progress
pub mod Fair
pub mod Rounds
pub mod Kinds
pub mod InOrder
pub mod Order
pub mod Failures
pub mod Delivery
pub mod Permuted
pub mod Harmless
pub mod Survival
pub mod Counts
pub mod Delivered
pub mod Named
use mqttraffic_warden.Common.{
  ℕ, Bool, true, false, not, Option, none, some, List, [], ◌∷◌, ◌++◌, map, Text, if◌then◌else◌,
  is_empty, Result, ok, throw, ◌>>=◌, init_failed, setup_failed, execution_failed, out_of_range,
  json_error, mqtt_error,
}
use mqttraffic_warden.Json.{JsonOps, FloatOps}
use mqttraffic_warden.Queue.{QueueOps}
use mqttraffic_warden.Transformer.Dispatch.{StreamTransformer, execute}
use mqttraffic_warden.Warden.Routes.{RouteProperties, RouteConfigurations, find_route}

-- `std::pair<std::string, nlohmann::json>`
abbrev pub Message : Type 0 → Type 0
Message J = Text × J

-- The tuple of the transform queue, by `TransformQueueEnum`.
pub record Work (J : Type 0) : Type 0 where
  pub stream_transformer_list : List StreamTransformer
  pub input_topic : Text
  pub input_payload : J
  pub output_topic : Text
  pub output_payload : J

-- What `ingest` hands on for one route.
pub data Job (J : Type 0) : Type 0 where
  to_transform : Work J → Job J
  to_publish : Message J → Job J

-- The arguments of `mqtt::make_message`.
pub record Publication : Type 0 where
  pub topic : Text
  pub payload : Text
  pub qos : ℕ
  pub retained : Bool

abbrev pub k_default_qos : ℕ
k_default_qos = 2

-- The queues; what a thread holds between two steps; the publications that the client has taken; and
-- whether an exception has left a thread, which ends the process.
pub record State (J M W : Type 0) : Type 0 where
  pub incoming : M
  pub transforming : W
  pub outgoing : M
  pub ingested : List (Job J)
  pub transformed : Option (Message J)
  pub published : List Publication
  pub terminated : Bool

-- The body of the loop over the route properties.
unfoldable pub job_of : {J : Type 0} → Message J → RouteProperties → Job J
job_of (input_topic, input_payload) r =
    if not (is_empty r.stream_transformers)
    then to_transform (record {
      stream_transformer_list = r.stream_transformers;
      input_topic = input_topic;
      input_payload = input_payload;
      output_topic = r.output_topic;
      output_payload = input_payload;
    })
    else to_publish (r.output_topic, input_payload)

-- The jobs of a message: none for a topic without routes.
unfoldable pub jobs_of : {J : Type 0} → RouteConfigurations → Message J → List (Job J)
unfolding job_of
jobs_of routes message = elim (find_route message.0 routes) [
  | none ↦ []
  | some rs ↦ map (job_of message) rs
]

-- `catch (StreamTransformerExecutionException&)`: the outputs stay as they were.
abbrev pub catch_execution : {J : Type 0} → Message J → Result (Message J) → Result (Message J)
catch_execution outputs (ok m) = ok m
catch_execution outputs (throw execution_failed) = ok outputs
catch_execution outputs (throw init_failed) = throw init_failed
catch_execution outputs (throw setup_failed) = throw setup_failed
catch_execution outputs (throw out_of_range) = throw out_of_range
catch_execution outputs (throw json_error) = throw json_error
catch_execution outputs (throw mqtt_error) = throw mqtt_error

-- An exception leaves a thread.
abbrev pub terminate : {J M W : Type 0} → State J M W → State J M W
terminate s = record s { terminated = true }

module _ {J F D : Type 0} (json : JsonOps J F D) (floats : FloatOps F D) where
  -- The loop over the stream transformers, over the output topic and the output payload.
  unfoldable pub run_transformers :
      List StreamTransformer → Text → J → Message J → Result (Message J)
  run_transformers [] input_topic input_payload outputs = ok outputs
  run_transformers (t ∷ ts) input_topic input_payload outputs = do
    next ←
        catch_execution outputs
          (execute json floats t input_topic input_payload outputs.0 outputs.1)
    run_transformers ts input_topic input_payload next

  unfoldable pub run_work : Work J → Result (Message J)
  unfolding run_transformers
  run_work w =
      run_transformers w.stream_transformer_list w.input_topic w.input_payload
        (w.output_topic, w.output_payload)

  -- The message that `publish` hands to the client.
  unfoldable pub publication_of : Message J → Result Publication
  publication_of (topic, payload) = do
    text ← json.dump payload
    ok (record { topic = topic; payload = text; qos = k_default_qos; retained = false })

  module _ {M W : Type 0} (messages : QueueOps (Message J) M) (works : QueueOps (Work J) W) where
    -- `message_arrived`: the exception of a text that is no JSON leaves the callback.
    unfoldable pub message_arrived : Text → Text → State J M W → Result (State J M W)
    message_arrived topic text s = do
      payload ← json.parse text
      ok (record s { incoming = messages.push (topic, payload) s.incoming })

    -- A push of `ingest`.
    unfoldable pub hand_on : Job J → List (Job J) → State J M W → State J M W
    hand_on (to_transform w) rest s = record s {
      transforming = works.push w s.transforming;
      ingested = rest;
    }
    hand_on (to_publish m) rest s = record s {
      outgoing = messages.push m s.outgoing;
      ingested = rest;
    }

    module _ (routes : RouteConfigurations) where
      -- A pop of `ingest`, or the next push for the message that it has popped.
      unfoldable pub ingest : State J M W → State J M W
      unfolding hand_on
      ingest s = elim s.ingested [
        | job ∷ rest ↦ hand_on job rest s
        | [] ↦ if messages.empty s.incoming then s else elim (messages.try_pop s.incoming) [
          | none ↦ s
          | some (message, q) ↦ record s { incoming = q; ingested = jobs_of routes message }
        ]
      ]

    -- The outcome of the transformers of a popped tuple.
    unfoldable pub finish : Result (Message J) → State J M W → State J M W
    finish (ok m) s = record s { transformed = some m }
    finish (throw e) s = terminate s

    -- What `transform` does with a popped tuple.
    unfoldable pub process : Work J → State J M W → State J M W
    unfolding finish
    process w s = if is_empty w.stream_transformer_list then s else finish (run_work w) s

    -- A pop of `transform`, with the transformers' run, or the push of the outcome.
    unfoldable pub transform : State J M W → State J M W
    unfolding process
    transform s = elim s.transformed [
      | some m ↦ record s { outgoing = messages.push m s.outgoing; transformed = none }
      | none ↦ if works.empty s.transforming then s else elim (works.try_pop s.transforming) [
        | none ↦ s
        | some (w, q) ↦ process w (record s { transforming = q })
      ]
    ]

    -- The call of the client for a popped message; `taken` says that the client has not thrown.
    unfoldable pub hand_over : Bool → Result Publication → State J M W → State J M W
    hand_over taken (throw e) s = terminate s
    hand_over true (ok p) s = record s { published = s.published ++ p ∷ [] }
    hand_over false (ok p) s = terminate s

    unfoldable pub publish : Bool → State J M W → State J M W
    unfolding hand_over
    publish taken s = if messages.empty s.outgoing then s else elim (messages.try_pop s.outgoing) [
      | none ↦ s
      | some (m, q) ↦ hand_over taken (publication_of m) (record s { outgoing = q })
    ]
