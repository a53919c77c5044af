-- ===== src/Warden/Startup.antt =====
-- `TrafficWarden::init` (src/traffic_warden.cpp), with the calls that join its threads, and `main` of
-- src/main.cpp.
pub mod Laws
pub mod Console
pub mod Errors
pub mod Topics
use mqttraffic_warden.Common.{
  zero, suc, ◌==◌, ℕ, Bool, true, false, not, ◌&&◌, ◌||◌, Option, none, some, List, [], ◌∷◌, map,
  Text, codes, is_empty, if◌then◌else◌, Result, ok, throw, ◌>>=◌,
}
use mathlib.Core.Option
use mqttraffic_warden.Booleans.{tolower}
use mqttraffic_warden.Json.{JsonOps, FloatOps}
use mqttraffic_warden.Queue.{QueueOps}
use mqttraffic_warden.Warden.Pipeline.{State, Message, Work}
use mqttraffic_warden.Warden.Pipeline.Schedule.{
  Event, arrives, ingests, transforms, publishes, step,
}
use mqttraffic_warden.Warden.Broker.{
  MqttClientArguments, retrieve_broker_infos, configure_mqtt_client,
}
use mqttraffic_warden.Warden.Routes.{RouteProperties, RouteConfigurations, retrieve_routes}

abbrev pub k_routes : Text
k_routes = codes "routes"

-- What `init` leaves: the arguments of the client that it makes, the routes, and the topics that it
-- hands to `initCallback`; `none` where it starts no thread and does not connect.
pub record Initialised : Type 0 where
  pub mqtt_client : MqttClientArguments
  pub routes : RouteConfigurations
  pub subscribed : Option (List Text)

-- The loop that fills `l_inputTopics`.
unfoldable pub input_topics : RouteConfigurations → List Text
input_topics [] = []
input_topics ((topic, rs) ∷ m) = topic ∷ input_topics m

abbrev pub exit_success : ℕ
exit_success = 0

abbrev pub exit_failure : ℕ
exit_failure = 1

-- The loop behind `init`, on the bytes that the console still gives; `std::cin.get()` at their end gives EOF,
-- again and again. `none` means that the fuel ran out.
unfoldable pub wait_for_quit : ℕ → Text → Option Text
wait_for_quit zero console = none
wait_for_quit (suc fuel) [] = wait_for_quit fuel []
wait_for_quit (suc fuel) (c ∷ console) = elim (tolower c == b'q') [
  | true ↦ some console
  | false ↦ wait_for_quit fuel console
]

-- The threads that `init` starts and joins: what they share, and which of their loops has ended.
pub record Threads (J M W : Type 0) : Type 0 where
  pub pipeline : State J M W
  pub ingest_ended : Bool
  pub transform_ended : Bool
  pub publish_ended : Bool

abbrev pub start_threads : {J M W : Type 0} → State J M W → Threads J M W
start_threads s = record {
  pipeline = s;
  ingest_ended = false;
  transform_ended = false;
  publish_ended = false;
}

-- The condition of the outer loop of `ingest`, `transform` and `publish`.
abbrev pub loop_condition : Bool
loop_condition = true

-- A turn of a thread: its loop goes on with the next step, or ends.
unfoldable pub thread_turn :
    {J M W : Type 0} → (Event → State J M W → State J M W) → Event → Threads J M W → Threads J M W
thread_turn next (arrives topic text) t = record t {
  pipeline = next (arrives topic text) t.pipeline;
}
thread_turn next ingests t =
    if t.ingest_ended
    then t
    else if loop_condition
    then record t { pipeline = next ingests t.pipeline }
    else record t { ingest_ended = true }
thread_turn next transforms t =
    if t.transform_ended
    then t
    else if loop_condition
    then record t { pipeline = next transforms t.pipeline }
    else record t { transform_ended = true }
thread_turn next (publishes taken) t =
    if t.publish_ended
    then t
    else if loop_condition
    then record t { pipeline = next (publishes taken) t.pipeline }
    else record t { publish_ended = true }

-- The three calls of `join`, while the threads take their turns as in the list; `none` means that the list
-- has ended before a thread has, and that no exception has ended the process.
unfoldable pub join_threads :
    {J M W : Type 0}
    → (Event → State J M W → State J M W)
    → List Event
    → Threads J M W
    → Option (Threads J M W)
unfolding thread_turn
join_threads next [] t =
    if t.pipeline.terminated || (t.ingest_ended && (t.transform_ended && t.publish_ended))
    then some t
    else none
join_threads next (e ∷ es) t =
    let rest = join_threads next es (thread_turn next e t) in
    if t.pipeline.terminated || (t.ingest_ended && (t.transform_ended && t.publish_ended))
    then some t
    else rest

-- How the process ends: with what `main` returns, or by an exception that leaves a thread.
pub data Ending : Type 0 where
  returned : ℕ → Ending
  aborted : Ending

-- The end of `main`.
abbrev pub wait_and_return : ℕ → Text → Option Ending
wait_and_return fuel console =
    Option.map (λ rest. returned exit_success) (wait_for_quit fuel console)

-- `main` behind the calls of `join`.
abbrev pub after_join : {J M W : Type 0} → ℕ → Text → Option (Threads J M W) → Option Ending
after_join fuel console none = none
after_join fuel console (some t) =
    if t.pipeline.terminated then some aborted else wait_and_return fuel console

module _ {J F D : Type 0} (json : JsonOps J F D) (accepts : Text → Text → Bool) where
  unfoldable pub init : J → Result Initialised
  init p_configurations = do
    broker ← retrieve_broker_infos json p_configurations
    client ← configure_mqtt_client accepts broker
    value ← json.at p_configurations k_routes
    routes ← retrieve_routes json value
    ok (record {
      mqtt_client = client;
      routes = routes;
      subscribed = if not (is_empty routes) then some (input_topics routes) else none;
    })

  module _ {M W : Type 0} (floats : FloatOps F D) (messages : QueueOps (Message J) M)
      (works : QueueOps (Work J) W) where
    -- `config` is the text of the file, `idle` the queues at the start, and `turns` and `fuel` say how far
    -- the threads and the loop on the console have come; `none` means that the process goes on. Both
    -- `catch` clauses return `EXIT_FAILURE`.
    unfoldable pub main : List Event → ℕ → State J M W → Text → Text → Option Ending
    unfolding init wait_for_quit join_threads
    main turns fuel idle config console = elim (json.parse config >>= init) [
      | ok s ↦ elim s.subscribed [
        | none ↦ wait_and_return fuel console
        | some topics ↦
            after_join fuel console
              (join_threads (step json floats messages works s.routes) turns (start_threads idle))
      ]
      | throw e ↦ some (returned exit_failure)
    ]
