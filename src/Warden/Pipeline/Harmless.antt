-- ===== src/Warden/Pipeline/Harmless.antt =====
-- The runs in which nothing throws an exception that ends the process.
pub mod Steps
use mqttraffic_warden.Common.{
  ◌≡◌, sym, inl, inr, true, false, Option, none, some, List, [], ◌∷◌, Text, is_empty, All,
  All-append, ok, ◌>>=◌, is_ok, ok-of_is_ok, arith, Bool-cases, Option-cases, List-cases,
  Result-cases,
}
use mqttraffic_warden.Json.{JsonOps, FloatOps}
use mqttraffic_warden.Queue.{QueueOps, QueueLaws}
use mqttraffic_warden.Warden.Routes.{RouteConfigurations}
use mqttraffic_warden.Warden.Pipeline.{
  State, Message, Work, Job, to_transform, to_publish, run_work, publication_of, jobs_of,
  message_arrived, hand_on, ingest, finish, process, transform, hand_over, publish,
}
use mqttraffic_warden.Warden.Pipeline.Schedule.{
  Event, arrives, ingests, transforms, publishes, or_terminate, act, step, run,
}
use mqttraffic_warden.Warden.Pipeline.Alive.{step_lem}
use mathlib.Core.Path.{subst}

module _ {J F D : Type 0} (json : JsonOps J F D) (floats : FloatOps F D)
    (routes : RouteConfigurations) where
  -- The payload can be printed.
  abbrev pub Prints : Message J → Type 0
  Prints m = is_ok (publication_of json floats m) ≡ true

  -- The transformers end well, or with the exception that is caught, and the outcome can be printed.
  abbrev pub Transforms : Work J → Type 0
  Transforms w = is_ok (run_work json floats w >>= publication_of json floats) ≡ true

  abbrev pub Succeeds : Job J → Type 0
  Succeeds (to_transform w) = Transforms w
  Succeeds (to_publish m) = Prints m

  -- All that the routes ask for the message ends well.
  abbrev pub AllSucceed : Message J → Type 0
  AllSucceed m = All Succeeds (jobs_of routes m)

  abbrev pub AllPrint : Option (Message J) → Type 0
  AllPrint none = Unit
  AllPrint (some m) = Prints m

  -- A message that arrives is a JSON text, and all that the routes ask for it ends well; the client takes what
  -- is published.
  abbrev pub IsHarmless : Event → Type 0
  IsHarmless (arrives topic text) =
      (payload : J) × (json.parse text ≡ ok payload) × AllSucceed (topic, payload)
  IsHarmless ingests = Unit
  IsHarmless transforms = Unit
  IsHarmless (publishes taken) = taken ≡ true

  module _ {M W : Type 0} (messages : QueueOps (Message J) M) (works : QueueOps (Work J) W) where
    -- The process goes on, and all that is under way will end well.
    pub record GoesWell (s : State J M W) : Type 0 where
      pub alive : s.terminated ≡ false
      pub incoming_well : All AllSucceed (messages.contents s.incoming)
      pub ingested_well : All Succeeds s.ingested
      pub transforming_well : All Transforms (works.contents s.transforming)
      pub transformed_well : AllPrint s.transformed
      pub outgoing_well : All Prints (messages.contents s.outgoing)
