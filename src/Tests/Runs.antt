-- ===== src/Tests/Runs.antt =====
-- Runs of the gateway at concrete messages, over lists as queues.
use mqttraffic_warden.Common.{
  arith, ◌⊎◌, ◌≡◌, refl, ap, true, false, none, List, [], ◌∷◌, ◌++◌, codes, ok, All, All-append,
  length, weigh,
}
use mqttraffic_warden.Strings.{split_string, join_strings}
use mqttraffic_warden.Topic.{split_topic, place_sub_topic}
use mqttraffic_warden.Transformer.TopicToTopic
use mqttraffic_warden.Transformer.PayloadToPayload.{PayloadToPayloadTransformation}
use mqttraffic_warden.Transformer.{string}
use mqttraffic_warden.Transformer.Dispatch.{
  execute, topic_to_topic, payload_to_payload, StreamTransformer,
}
use mqttraffic_warden.Warden.Routes.{RouteConfigurations, find_route}
use mqttraffic_warden.Warden.Pipeline.{
  State, Message, Work, Publication, job_of, jobs_of, run_transformers, run_work, publication_of,
  message_arrived, hand_on, ingest, finish, process, transform, hand_over, publish,
}
use mqttraffic_warden.Warden.Pipeline.Schedule.{
  Event, arrives, ingests, transforms, publishes, or_terminate, act, step, run, deliveries,
}
use mqttraffic_warden.Warden.Pipeline.Owed.{owed, expected, IsIdle}
use mqttraffic_warden.Warden.Pipeline.Permuted.{owed-run-Perm}
use mqttraffic_warden.Warden.Pipeline.Harmless.{IsHarmless}
use mqttraffic_warden.Warden.Pipeline.Delivered.{each_delivered}
use mqttraffic_warden.Warden.Pipeline.Progress.{steps_left}
use mqttraffic_warden.Warden.Pipeline.Rounds.{one_round, one_round-IsFair}
use mqttraffic_warden.Warden.Pipeline.Fair.{IsFair, in_turn, in_turn-IsIdle}
use mqttraffic_warden.Warden.Pipeline.Outcomes.{process_missing}
use mqttraffic_warden.Sample.Value.{Value, obj, end, sample_json, sample_floats}
use mqttraffic_warden.Sample.Laws.{sample_json-JsonLaws}
use mqttraffic_warden.Sample.Queues.{list_queue, list_queue-QueueLaws}
use mathlib.Core.List.{Perm, Memᴰ, flat_map}

abbrev first_in : StreamTransformer
first_in = topic_to_topic (record { from_topic = 0; to_topic = 1 })

abbrev two_routes : RouteConfigurations
two_routes =
    (
      codes "in/x",
      record { name = codes "1"; output_topic = codes "out/a"; stream_transformers = first_in ∷ [] }
          ∷ record { name = codes "2"; output_topic = codes "plain"; stream_transformers = [] }
          ∷ [],
    )
    ∷ []

abbrev Gateway : Type 0
Gateway = State Value (List (Message Value)) (List (Work Value))

abbrev at_rest : Gateway
at_rest = record {
  incoming = [];
  transforming = [];
  outgoing = [];
  ingested = [];
  transformed = none;
  published = [];
  terminated = false;
}

abbrev events : List Event
events =
    arrives (codes "in/x") (codes "{}")
    ∷ ingests
    ∷ ingests
    ∷ transforms
    ∷ ingests
    ∷ publishes true
    ∷ transforms
    ∷ publishes true
    ∷ []

abbrev both : List Publication
both =
    record { topic = codes "plain"; payload = codes "{}"; qos = 2; retained = false }
    ∷ record { topic = codes "out/in/a"; payload = codes "{}"; qos = 2; retained = false }
    ∷ []

abbrev afterwards : Gateway
afterwards = record at_rest { published = both }

gateway_run :
    run sample_json sample_floats list_queue list_queue two_routes events at_rest ≡ afterwards
unfolding run step act or_terminate message_arrived ingest hand_on transform process finish publish
    hand_over publication_of jobs_of job_of find_route run_work run_transformers execute
    TopicToTopic.execute split_topic place_sub_topic split_string join_strings
gateway_run = refl

gateway_alive :
    (run sample_json sample_floats list_queue list_queue two_routes events at_rest).terminated
    ≡ false
gateway_alive = ap (λ s. s.terminated) gateway_run

idle :
    (ps : List Publication)
    → IsIdle sample_json sample_floats two_routes list_queue list_queue
        (record at_rest { published = ps })
idle ps = record {
  no_incoming = refl;
  no_ingested = refl;
  no_transforming = refl;
  no_transformed = refl;
  no_outgoing = refl;
}

gateway-IsIdle :
    IsIdle sample_json sample_floats two_routes list_queue list_queue
      (run sample_json sample_floats list_queue list_queue two_routes events at_rest)
gateway-IsIdle = rw gateway_run (idle both)

owed-run-Perm_example :
    Perm
      (owed sample_json sample_floats two_routes list_queue list_queue
        (run sample_json sample_floats list_queue list_queue two_routes events at_rest))
      (owed sample_json sample_floats two_routes list_queue list_queue at_rest
        ++ flat_map (expected sample_json sample_floats two_routes) (deliveries sample_json events))
owed-run-Perm_example =
    owed-run-Perm sample_json sample_floats two_routes list_queue list_queue list_queue-QueueLaws
      list_queue-QueueLaws events at_rest gateway_alive

abbrev topic_work : Work Value
topic_work = record {
  stream_transformer_list = first_in ∷ [];
  input_topic = codes "in/x";
  input_payload = obj end;
  output_topic = codes "out/a";
  output_payload = obj end;
}

topic_work_run : run_work sample_json sample_floats topic_work ≡ ok (codes "out/in/a", obj end)
unfolding run_work run_transformers execute TopicToTopic.execute split_topic place_sub_topic
    split_string join_strings
topic_work_run = refl

abbrev reads_room : PayloadToPayloadTransformation
reads_room = record {
  from_payload = codes "room";
  to_payload = codes "place";
  as_type = string;
  keep = true;
}

abbrev room_work : Work Value
room_work = record topic_work {
  stream_transformer_list = first_in ∷ payload_to_payload reads_room ∷ [];
}

process_missing_example :
    (process sample_json sample_floats list_queue list_queue room_work at_rest).terminated ≡ true
process_missing_example =
    process_missing sample_json sample_floats sample_json-JsonLaws list_queue list_queue
      (first_in ∷ []) [] reads_room room_work at_rest refl refl

abbrev one_arrived : Gateway
one_arrived = record at_rest { incoming = (codes "in/x", obj end) ∷ [] }

seven_steps : steps_left sample_json sample_floats list_queue list_queue two_routes one_arrived ≡ 7
unfolding steps_left jobs_of job_of find_route
seven_steps = refl

-- The publish thread comes first, and the ingest thread twice.
abbrev any_order : List Event
any_order = publishes true ∷ ingests ∷ ingests ∷ transforms ∷ []

any_order-IsFair : IsFair any_order
any_order-IsFair = record {
  no_arrival = (refl, (refl, (refl, (refl, tt))));
  ingests_once = Memᴰ.tail (Memᴰ.head refl);
  transforms_once = Memᴰ.tail (Memᴰ.tail (Memᴰ.tail (Memᴰ.head refl)));
  taken = true;
  publishes_once = Memᴰ.head refl;
}

abbrev seven_parts : List (List Event)
seven_parts = any_order ∷ one_round ∷ any_order ∷ any_order ∷ one_round ∷ any_order ∷ any_order ∷ []

seven_parts-IsFair : All IsFair seven_parts
seven_parts-IsFair = (
  any_order-IsFair,
  (
    one_round-IsFair,
    (
      any_order-IsFair,
      (any_order-IsFair, (one_round-IsFair, (any_order-IsFair, (any_order-IsFair, tt)))),
    ),
  ),
)

in_turn-IsIdle_example :
    ((run sample_json sample_floats list_queue list_queue two_routes
        (in_turn seven_parts)
        one_arrived).terminated
      ≡ true)
    ⊎ IsIdle sample_json sample_floats two_routes list_queue list_queue (
        run sample_json sample_floats list_queue list_queue two_routes
          (in_turn seven_parts)
          one_arrived)
in_turn-IsIdle_example =
    in_turn-IsIdle sample_json sample_floats list_queue list_queue two_routes list_queue-QueueLaws
      list_queue-QueueLaws seven_parts one_arrived seven_parts-IsFair (omega (arith, seven_steps))

abbrev Harmless : List Event → Type 0
Harmless = All (IsHarmless sample_json sample_floats two_routes)

any_order-Harmless : Harmless any_order
any_order-Harmless = (refl, (tt, (tt, (tt, tt))))

one_round-Harmless : Harmless one_round
one_round-Harmless = (tt, (tt, (refl, tt)))

in_turn-Harmless : (parts : List (List Event)) → All Harmless parts → Harmless (in_turn parts)
in_turn-Harmless [] hs = tt
in_turn-Harmless (es ∷ parts) (h, hs) =
    All-append (IsHarmless sample_json sample_floats two_routes) es (in_turn parts) h
      (in_turn-Harmless parts hs)

parts-Harmless : Harmless (in_turn seven_parts)
parts-Harmless = in_turn-Harmless seven_parts (
  any_order-Harmless,
  (
    one_round-Harmless,
    (
      any_order-Harmless,
      (any_order-Harmless, (one_round-Harmless, (any_order-Harmless, (any_order-Harmless, tt)))),
    ),
  ),
)

abbrev one_message : List Event
one_message = publishes true ∷ arrives (codes "in/x") (codes "{}") ∷ []

one_message-Harmless : Harmless one_message
unfolding publication_of jobs_of job_of find_route run_work run_transformers execute
    TopicToTopic.execute split_topic place_sub_topic split_string join_strings
one_message-Harmless = (refl, ((obj end, refl, (refl, (refl, tt))), tt))

seven_left :
    steps_left sample_json sample_floats list_queue list_queue two_routes
      (run sample_json sample_floats list_queue list_queue two_routes one_message at_rest)
    ≡ 7
unfolding run step act or_terminate message_arrived publish hand_over steps_left jobs_of job_of
    find_route
seven_left = refl

each_delivered_example :
    ((run sample_json sample_floats list_queue list_queue two_routes (in_turn seven_parts) (
        run sample_json sample_floats list_queue list_queue two_routes one_message
          at_rest)).terminated
      ≡ false)
    × IsIdle sample_json sample_floats two_routes list_queue list_queue (
        run sample_json sample_floats list_queue list_queue two_routes
          (in_turn seven_parts)
          (run sample_json sample_floats list_queue list_queue two_routes one_message at_rest))
    × Perm
        (run sample_json sample_floats list_queue list_queue two_routes (in_turn seven_parts) (
          run sample_json sample_floats list_queue list_queue two_routes one_message
            at_rest)).published
        (flat_map
          (expected sample_json sample_floats two_routes)
          (deliveries sample_json one_message))
    × (length
          (run sample_json sample_floats list_queue list_queue two_routes (in_turn seven_parts) (
            run sample_json sample_floats list_queue list_queue two_routes one_message
              at_rest)).published
        ≡ weigh (λ m. length (jobs_of two_routes m)) (deliveries sample_json one_message))
each_delivered_example =
    each_delivered sample_json sample_floats two_routes list_queue list_queue list_queue-QueueLaws
      list_queue-QueueLaws one_message seven_parts at_rest (idle []) refl refl one_message-Harmless
      parts-Harmless seven_parts-IsFair (omega (arith, seven_left))
