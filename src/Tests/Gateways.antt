-- ===== src/Tests/Gateways.antt =====
-- Orders, failures and the client with the threads, at concrete inputs.
use mqttraffic_warden.Common.{
  ◌≢◌, ◌≡◌, refl, true, false, none, List, [], ◌∷◌, ◌++◌, Text, codes, str_eq, str_eq_sound, All,
}
use mqttraffic_warden.Client.{
  Client, down, connecting, up, connect, init_callback, connected, subscribe_all,
}
use mqttraffic_warden.Client.Connection.{succeeded}
use mqttraffic_warden.Warden.Routes.{RouteProperties, RouteConfigurations, find_route, add_route}
use mqttraffic_warden.Warden.Routes.Wildcards.{has_wildcard, wildcard_unused}
use mqttraffic_warden.Warden.Startup.{input_topics}
use mqttraffic_warden.Warden.Pipeline.{
  State, Message, Work, Publication, job_of, jobs_of, publication_of, message_arrived, hand_on,
  ingest, hand_over, publish,
}
use mqttraffic_warden.Warden.Pipeline.Schedule.{
  Event, arrives, ingests, publishes, or_terminate, act, step, run,
}
use mqttraffic_warden.Warden.Pipeline.Owed.{expected, IsIdle}
use mqttraffic_warden.Warden.Gateway.Failures.{disconnected_publication}
use mqttraffic_warden.Warden.Gateway.{
  Gateway, Moves, at_start, further, reported, delivered, ingested, published, after_event,
}
use mqttraffic_warden.Warden.Gateway.Incoming.{AllRouted}
use mqttraffic_warden.Warden.Gateway.Runs.{arrived_in}
use mqttraffic_warden.Warden.Gateway.Publications.{published-Perm, published_in_turn}
use mqttraffic_warden.Sample.Laws.{sample_json-JsonLaws}
use mqttraffic_warden.Tests.Connections.{accepts_all, config_file, initialised, init_run}
use mqttraffic_warden.Warden.Pipeline.Named.{IsNamed}
use mqttraffic_warden.Warden.Gateway.Named.{published-IsNamed}
use mqttraffic_warden.Warden.Gateway.Arrivals.{arrived_in-jobs}
use mqttraffic_warden.Warden.Gateway.Routed.{started, Moves-AllRouted}
use mqttraffic_warden.Sample.Value.{Value, obj, end, sample_json, sample_floats}
use mqttraffic_warden.Sample.Queues.{list_queue, list_queue-QueueLaws}
use mathlib.Core.List.{Perm, flat_map}

abbrev plain : Text → RouteProperties
plain t = record { name = codes "r"; output_topic = t; stream_transformers = [] }

abbrev pub forwards : RouteConfigurations
forwards = (codes "in", plain (codes "out") ∷ plain (codes "log") ∷ []) ∷ []

abbrev Threads : Type 0
Threads = State Value (List (Message Value)) (List (Work Value))

abbrev at_rest : Threads
at_rest = record {
  incoming = [];
  transforming = [];
  outgoing = [];
  ingested = [];
  transformed = none;
  published = [];
  terminated = false;
}

abbrev to_topic : Text → Text → Publication
to_topic topic payload = record { topic = topic; payload = payload; qos = 2; retained = false }

pub idle :
    (ps : List Publication)
    → IsIdle sample_json sample_floats forwards list_queue list_queue
        (record at_rest { published = ps })
idle ps = record {
  no_incoming = refl;
  no_ingested = refl;
  no_transforming = refl;
  no_transformed = refl;
  no_outgoing = refl;
}

abbrev events : List Event
events =
    arrives (codes "in") (codes "{}")
    ∷ ingests
    ∷ ingests
    ∷ ingests
    ∷ publishes true
    ∷ publishes true
    ∷ []

abbrev go : List Event → Threads → Threads
go = run sample_json sample_floats list_queue list_queue forwards

abbrev forwarded : List Publication
forwarded = to_topic (codes "out") (codes "{}") ∷ to_topic (codes "log") (codes "{}") ∷ []

wildcard_unused_example :
    jobs_of (add_route (codes "in/#") (plain (codes "all")) forwards) (codes "in/x", obj end)
    ≡ jobs_of forwards (codes "in/x", obj end)
wildcard_unused_example =
    wildcard_unused (codes "in/#") (plain (codes "all")) forwards (codes "in/x", obj end) refl refl

abbrev fresh : Client
fresh = record { topics_to_subscribe = []; phase = down; subscriptions = []; terminated = false }

abbrev trying : Client
trying = connect true (init_callback (input_topics forwards) fresh)

abbrev session : Client
session = connected (λ t. true) (record trying { phase = up; subscriptions = [] })

trying_phase : trying.phase ≡ connecting
unfolding connect init_callback
trying_phase = refl

trying_alive : trying.terminated ≡ false
unfolding connect init_callback
trying_alive = refl

abbrev session_gateway : Gateway Value (List (Message Value)) (List (Work Value))
session_gateway = record { pipeline = at_rest; client = session }

abbrev pub with_message : Gateway Value (List (Message Value)) (List (Work Value))
with_message =
    after_event sample_json sample_floats list_queue list_queue forwards str_eq
      (arrives (codes "in") (codes "{}")) session_gateway

no_wildcard : All (λ t. has_wildcard t ≡ false) (input_topics forwards)
unfolding input_topics
no_wildcard = (refl, tt)

pub one_delivery :
    Moves sample_json sample_floats list_queue list_queue forwards str_eq
      (started sample_json sample_floats list_queue list_queue str_eq forwards true at_rest fresh)
      with_message
unfolding connect init_callback connected subscribe_all input_topics
one_delivery =
    further (further at_start (reported (succeeded (λ t. true) trying_alive trying_phase)))
      (delivered (codes "in") (codes "{}") refl refl refl)

pub one_arrived :
    arrived_in sample_json sample_floats list_queue list_queue forwards str_eq one_delivery
    ≡ (codes "in", obj end) ∷ []
unfolding one_delivery
one_arrived = refl

Moves-AllRouted_example :
    AllRouted sample_json sample_floats list_queue list_queue forwards list_queue-QueueLaws
      with_message.pipeline
Moves-AllRouted_example =
    Moves-AllRouted sample_json sample_floats list_queue list_queue str_eq forwards
      list_queue-QueueLaws true at_rest fresh with_message (λ f t h e. str_eq_sound f t e)
      no_wildcard refl refl one_delivery

abbrev Sampled : Type 0
Sampled = Gateway Value (List (Message Value)) (List (Work Value))

abbrev pub starting : Sampled
starting =
    started sample_json sample_floats list_queue list_queue str_eq forwards true at_rest fresh

abbrev all_published : Sampled
all_published = record { pipeline = record at_rest { published = forwarded }; client = session }

complete_run :
    Moves sample_json sample_floats list_queue list_queue forwards str_eq starting all_published
unfolding connect init_callback connected subscribe_all input_topics step act or_terminate
    message_arrived ingest hand_on publish hand_over publication_of jobs_of job_of find_route
complete_run =
    further
      (further
        (further (further (further one_delivery (ingested refl)) (ingested refl)) (ingested refl))
        (published refl))
      (published refl)

published-Perm_example : Perm forwarded (
    flat_map
      (expected sample_json sample_floats forwards)
      (arrived_in sample_json sample_floats list_queue list_queue forwards str_eq complete_run))
published-Perm_example =
    published-Perm sample_json sample_floats list_queue list_queue forwards str_eq
      list_queue-QueueLaws list_queue-QueueLaws {g = starting} {h = all_published} complete_run
      (idle []) refl refl (idle forwarded)

published_in_turn_example :
    forwarded
    ≡ []
      ++ flat_map
          (expected sample_json sample_floats forwards)
          (arrived_in sample_json sample_floats list_queue list_queue forwards str_eq complete_run)
published_in_turn_example =
    published_in_turn sample_json sample_floats list_queue list_queue forwards str_eq
      list_queue-QueueLaws list_queue-QueueLaws false ((refl, (refl, tt)), tt) {g = starting}
      {h = all_published} complete_run (idle []) refl (idle forwarded)

abbrev threads_with : Threads → Sampled
threads_with s = record { pipeline = s; client = fresh }

abbrev waiting : Threads
waiting = record at_rest { outgoing = (codes "out", obj end) ∷ [] }

abbrev after_publish : Sampled
after_publish =
    after_event sample_json sample_floats list_queue list_queue forwards str_eq (publishes false)
      (threads_with waiting)

disconnected_publication_example :
    (after_publish.pipeline.terminated ≡ true) × (after_publish.pipeline.published ≡ [])
disconnected_publication_example =
    disconnected_publication sample_json sample_floats list_queue list_queue forwards str_eq
      list_queue-QueueLaws (threads_with waiting) after_publish refl refl (λ e. cc) at_start

published-IsNamed_example : All IsNamed forwarded
published-IsNamed_example =
    published-IsNamed sample_json sample_floats list_queue list_queue str_eq sample_json-JsonLaws
      list_queue-QueueLaws list_queue-QueueLaws accepts_all config_file initialised starting
      all_published init_run (idle []) refl complete_run

arrived_in-jobs_example :
    All
      (λ m. jobs_of initialised.routes m ≢ [])
      (arrived_in sample_json sample_floats list_queue list_queue forwards str_eq complete_run)
arrived_in-jobs_example =
    arrived_in-jobs sample_json sample_floats list_queue list_queue str_eq sample_json-JsonLaws
      accepts_all config_file initialised true at_rest fresh all_published
      (λ f t h e. str_eq_sound f t e) init_run no_wildcard refl complete_run
