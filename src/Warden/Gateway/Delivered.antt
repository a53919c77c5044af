-- ===== src/Warden/Gateway/Delivered.antt =====
-- What the gateway publishes in the end, as long as nothing has ended the process.
use mqttraffic_warden.Common.{◌≤◌, ◌≡◌, Bool, false, List, [], Text, All, length, weigh}
use mqttraffic_warden.Json.{JsonOps, FloatOps}
use mqttraffic_warden.Queue.{QueueOps, QueueLaws}
use mqttraffic_warden.Warden.Routes.{RouteConfigurations}
use mqttraffic_warden.Warden.Pipeline.{State, Message, Work, jobs_of}
use mqttraffic_warden.Warden.Pipeline.Schedule.{Event, run, deliveries}
use mqttraffic_warden.Warden.Pipeline.Alive.{run_alive}
use mqttraffic_warden.Warden.Pipeline.Owed.{expected, IsIdle}
use mqttraffic_warden.Warden.Pipeline.Progress.{steps_left}
use mqttraffic_warden.Warden.Pipeline.Fair.{IsFair, in_turn}
use mqttraffic_warden.Warden.Pipeline.Harmless.{AllSucceed, IsHarmless}
use mqttraffic_warden.Warden.Pipeline.Survival.{alive-GoesWell}
use mqttraffic_warden.Warden.Pipeline.Delivered.{idle-GoesWell, Delivers, run-Delivers}
use mqttraffic_warden.Warden.Gateway.{Gateway, Moves}
use mqttraffic_warden.Warden.Gateway.Runs.{arrived_in, schedule}
use mathlib.Core.List.{Perm, flat_map}
use mathlib.Core.Path.{subst}

module _ {J F D M W : Type 0} (json : JsonOps J F D) (floats : FloatOps F D)
    (messages : QueueOps (Message J) M) (works : QueueOps (Work J) W) (routes : RouteConfigurations)
    (matches : Text → Text → Bool) (mlaws : QueueLaws messages) (wlaws : QueueLaws works) where
  abbrev go_run : List Event → State J M W → State J M W
  go_run = run json floats messages works routes

  -- From a gateway whose threads are idle and have published nothing, whatever the Paho client reports,
  -- the broker delivers and the threads do: if no exception has ended the process, and for each route of
  -- each message that has come in the transformers end well or with the exception that transform
  -- catches, and the outcome can be printed; and if at least as many parts follow as there are steps
  -- left, where in each part nothing arrives, each thread makes at least one step, in any order, and the
  -- client takes what is published: then no exception has ended the process, no message is in a queue
  -- or held by a thread, what has been published is, up to its order, what the specification asks for
  -- the messages that have come in, and that is one publication for each route of each message.
  pub each_arrival_published :
      {g h : Gateway J M W} (ms : Moves json floats messages works routes matches g h)
      (parts : List (List Event))
      → IsIdle json floats routes messages works g.pipeline
      → g.pipeline.published ≡ []
      → h.pipeline.terminated ≡ false
      → All
          (AllSucceed json floats routes)
          (arrived_in json floats messages works routes matches ms)
      → All (IsHarmless json floats routes) (in_turn parts)
      → All IsFair parts
      → steps_left json floats messages works routes h.pipeline ≤ length parts
      → ((go_run (in_turn parts) h.pipeline).terminated ≡ false)
        × IsIdle json floats routes messages works (go_run (in_turn parts) h.pipeline)
        × Perm (go_run (in_turn parts) h.pipeline).published (
            flat_map
              (expected json floats routes)
              (arrived_in json floats messages works routes matches ms))
        × (length (go_run (in_turn parts) h.pipeline).published
            ≡ weigh
                (λ m. length (jobs_of routes m))
                (arrived_in json floats messages works routes matches ms))
  each_arrival_published {g} {h} ms parts i none_yet alive succeed later fair enough =
      let s = schedule json floats messages works routes matches ms in
      let alive' : (go_run s.events g.pipeline).terminated ≡ false = rw s.same_state alive in
      let succeed' : All (AllSucceed json floats routes) (deliveries json s.events) =
        rw s.same_messages succeed in
      let well =
        alive-GoesWell json floats routes messages works mlaws wlaws s.events g.pipeline succeed'
          (idle-GoesWell json floats routes messages works mlaws wlaws g.pipeline i
            (run_alive json floats messages works routes s.events g.pipeline alive'))
          alive' in
      let d =
        run-Delivers json floats routes messages works mlaws wlaws s.events parts g.pipeline i
          none_yet succeed' well later fair (rw s.same_state enough) in
      let d' =
        subst
          (λ t.
            Delivers json floats routes messages works mlaws wlaws s.events
              (go_run (in_turn parts) t))
          s.same_state d in
      (
        d'.alive,
        d'.idle,
        rw s.same_messages at d'.as_expected,
        rw s.same_messages at d'.one_for_each,
      )
