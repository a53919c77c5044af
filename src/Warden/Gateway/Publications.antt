-- ===== src/Warden/Gateway/Publications.antt =====
-- What the gateway has published, from the messages that have come in.
use mqttraffic_warden.Common.{◌≡◌, sym, ap, ◌∙◌, Bool, false, [], ◌++◌, Text, Perm-of_weigh, weigh}
use mqttraffic_warden.Json.{JsonOps, FloatOps}
use mqttraffic_warden.Queue.{QueueOps, QueueLaws}
use mqttraffic_warden.Warden.Routes.{RouteConfigurations}
use mqttraffic_warden.Warden.Pipeline.{Message, Work}
use mqttraffic_warden.Warden.Pipeline.Owed.{expected, IsIdle}
use mqttraffic_warden.Warden.Pipeline.Kinds.{IsUniform}
use mqttraffic_warden.Warden.Pipeline.Order.{published_in_order}
use mqttraffic_warden.Warden.Pipeline.Conservation.{published-run}
use mqttraffic_warden.Warden.Gateway.{Gateway, Moves}
use mathlib.Core.List.{Perm, flat_map}
use mqttraffic_warden.Warden.Pipeline.Permuted.{Publication-discrete}
use mqttraffic_warden.Warden.Gateway.Runs.{arrived_in, schedule}

module _ {J F D M W : Type 0} (json : JsonOps J F D) (floats : FloatOps F D)
    (messages : QueueOps (Message J) M) (works : QueueOps (Work J) W) (routes : RouteConfigurations)
    (matches : Text → Text → Bool) where
  -- From a gateway whose threads are idle and have published nothing, whatever the Paho client reports,
  -- the broker delivers and the threads do: if no exception has ended the process and the threads are
  -- idle again, what has been published is, up to its order, what the specification asks for the messages
  -- that have come in.
  pub published-Perm :
      (mlaws : QueueLaws messages) (wlaws : QueueLaws works) {g h : Gateway J M W}
      (ms : Moves json floats messages works routes matches g h)
      → IsIdle json floats routes messages works g.pipeline
      → g.pipeline.published ≡ []
      → h.pipeline.terminated ≡ false
      → IsIdle json floats routes messages works h.pipeline
      → Perm h.pipeline.published (
          flat_map
            (expected json floats routes)
            (arrived_in json floats messages works routes matches ms))
  published-Perm mlaws wlaws {g} {h} ms i none_yet alive j =
      let s = schedule json floats messages works routes matches ms in
      Perm-of_weigh Publication-discrete _ _ λ f.
        ap (λ x. weigh f x.published) (sym s.same_state)
        ∙ published-run json floats routes messages works mlaws wlaws f s.events g.pipeline i
            none_yet (rw s.same_state alive) (rw s.same_state j)
        ∙ ap (λ l. weigh f (flat_map (expected json floats routes) l)) s.same_messages

  -- If the routes are all of one kind, each with transformers or none with any, and the threads are idle
  -- at the start: whatever the Paho client reports, the broker delivers and the threads do, if no exception
  -- has ended the process and the threads are idle again, what has been published since is what the
  -- specification asks for the messages that have come in, in the order of their arrival, and for each
  -- message in the order of the routes of its topic.
  pub published_in_turn :
      (mlaws : QueueLaws messages) (wlaws : QueueLaws works) (kind : Bool)
      (uniform : IsUniform kind routes) {g h : Gateway J M W}
      (ms : Moves json floats messages works routes matches g h)
      → IsIdle json floats routes messages works g.pipeline
      → h.pipeline.terminated ≡ false
      → IsIdle json floats routes messages works h.pipeline
      → h.pipeline.published
        ≡ g.pipeline.published
          ++ flat_map
              (expected json floats routes)
              (arrived_in json floats messages works routes matches ms)
  published_in_turn mlaws wlaws kind uniform {g} {h} ms i alive j =
      let s = schedule json floats messages works routes matches ms in
      ap (λ x. x.published) (sym s.same_state)
      ∙ published_in_order json floats routes messages works mlaws wlaws kind uniform s.events
          g.pipeline i (rw s.same_state alive) (rw s.same_state j)
      ∙ ap (λ l. g.pipeline.published ++ flat_map (expected json floats routes) l) s.same_messages
