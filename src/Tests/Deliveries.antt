-- ===== src/Tests/Deliveries.antt =====
-- What the gateway publishes in the end, at a concrete run.
use mqttraffic_warden.Common.{◌≡◌, refl, ℕ, zero, suc, false, length, weigh, All, arith, str_eq, []}
use mqttraffic_warden.Warden.Routes.{find_route}
use mqttraffic_warden.Warden.Pipeline.{jobs_of, job_of, publication_of, message_arrived}
use mqttraffic_warden.Warden.Pipeline.Schedule.{run, step, act, or_terminate}
use mqttraffic_warden.Warden.Pipeline.Owed.{expected, IsIdle}
use mqttraffic_warden.Warden.Pipeline.Progress.{steps_left}
use mqttraffic_warden.Warden.Pipeline.Rounds.{rounds, turns, turns-IsFair}
use mqttraffic_warden.Warden.Pipeline.Harmless.{AllSucceed, IsHarmless}
use mqttraffic_warden.Warden.Gateway.Runs.{arrived_in}
use mqttraffic_warden.Warden.Gateway.Delivered.{each_arrival_published}
use mqttraffic_warden.Tests.Gateways.{
  forwards, idle, starting, with_message, one_delivery, one_arrived,
}
use mqttraffic_warden.Sample.Value.{sample_json, sample_floats}
use mqttraffic_warden.Sample.Queues.{list_queue, list_queue-QueueLaws}
use mathlib.Core.List.{Perm, flat_map}

rounds-Harmless : (n : ℕ) → All (IsHarmless sample_json sample_floats forwards) (rounds n)
rounds-Harmless zero = tt
rounds-Harmless (suc n) = (tt, (tt, (refl, rounds-Harmless n)))

delivery_alive : with_message.pipeline.terminated ≡ false
unfolding step act or_terminate message_arrived
delivery_alive = refl

five_left :
    steps_left sample_json sample_floats list_queue list_queue forwards with_message.pipeline ≡ 5
unfolding step act or_terminate message_arrived steps_left jobs_of job_of find_route
five_left = refl

both_succeed :
    All
      (AllSucceed sample_json sample_floats forwards)
      (arrived_in sample_json sample_floats list_queue list_queue forwards str_eq one_delivery)
unfolding publication_of jobs_of job_of find_route
both_succeed = rw one_arrived ((refl, (refl, tt)), tt)

each_arrival_published_example :
    ((run sample_json sample_floats list_queue list_queue forwards
        (rounds 5)
        with_message.pipeline).terminated
      ≡ false)
    × IsIdle sample_json sample_floats forwards list_queue list_queue (
        run sample_json sample_floats list_queue list_queue forwards
          (rounds 5)
          with_message.pipeline)
    × Perm
        (run sample_json sample_floats list_queue list_queue forwards
          (rounds 5)
          with_message.pipeline).published
        (flat_map
          (expected sample_json sample_floats forwards)
          (arrived_in sample_json sample_floats list_queue list_queue forwards str_eq one_delivery))
    × (length
          (run sample_json sample_floats list_queue list_queue forwards
            (rounds 5)
            with_message.pipeline).published
        ≡ weigh
            (λ m. length (jobs_of forwards m))
            (arrived_in sample_json sample_floats list_queue list_queue forwards str_eq
              one_delivery))
each_arrival_published_example =
    each_arrival_published sample_json sample_floats list_queue list_queue forwards str_eq
      list_queue-QueueLaws list_queue-QueueLaws {g = starting} {h = with_message} one_delivery
      (turns 5) (idle []) refl delivery_alive both_succeed (rounds-Harmless 5) (turns-IsFair 5)
      (omega (arith, five_left))
