-- ===== src/Warden/Pipeline/Ended.antt =====
-- What an exception leaves of what has been published.
use mqttraffic_warden.Common.{
  ◌≡◌, refl, ap, ◌∙◌, ◌⊎◌, inl, inr, Bool, true, false, List, [], ◌∷◌, Text, Bool-cases,
  Option-cases, List-cases, Result-cases,
}
use mqttraffic_warden.Json.{JsonOps, FloatOps}
use mqttraffic_warden.Queue.{QueueOps}
use mqttraffic_warden.Warden.Routes.{RouteConfigurations}
use mqttraffic_warden.Warden.Pipeline.{
  State, Message, Work, Job, to_transform, to_publish, message_arrived, hand_on, ingest, hand_over,
  publish, publication_of,
}
use mqttraffic_warden.Warden.Pipeline.Schedule.{
  Event, arrives, ingests, transforms, publishes, act, step, run,
}
use mqttraffic_warden.Warden.Pipeline.Frames.{transform-SameParts}
use mqttraffic_warden.Warden.Pipeline.Alive.{step_lem, run_ended}

module _ {J F D M W : Type 0} (json : JsonOps J F D) (floats : FloatOps F D)
    (messages : QueueOps (Message J) M) (works : QueueOps (Work J) W)
    (routes : RouteConfigurations) where
  -- An action that publishes does not end the process.
  abbrev Continues : State J M W → State J M W → Type 0
  Continues s s' = (s'.published ≡ s.published) ⊎ (s'.terminated ≡ s.terminated)

  arrive-Continues :
      (topic text : Text) (s : State J M W)
      → Continues s (act json floats messages works routes (arrives topic text) s)
  unfolding act message_arrived
  arrive-Continues topic text s = elim (Result-cases (json.parse text)) [
    | inl (payload, e) ↦ simp (act, message_arrived, e) (inl refl)
    | inr (x, e) ↦ simp (act, message_arrived, e) (inl refl)
  ]

  hand_on-published :
      (j : Job J) (rest : List (Job J)) (s : State J M W)
      → (hand_on json floats messages works j rest s).published ≡ s.published
  unfolding hand_on
  hand_on-published (to_transform w) rest s = refl
  hand_on-published (to_publish m) rest s = refl

  ingest-published :
      (s : State J M W) → (ingest json floats messages works routes s).published ≡ s.published
  unfolding ingest
  ingest-published s = elim (List-cases s.ingested) [
    | inl e ↦ elim (Bool-cases (messages.empty s.incoming)) [
      | inl b ↦ simp (ingest, e, b)
      | inr b ↦ elim (Option-cases (messages.try_pop s.incoming)) [
        | inl h ↦ simp (ingest, e, b, h)
        | inr ((m, q), h) ↦ simp (ingest, e, b, h)
      ]
    ]
    | inr (j, rest, e) ↦ simp (ingest, e, hand_on-published j rest s)
  ]

  hand_over-Continues :
      (taken : Bool) (m : Message J) (s : State J M W)
      → Continues s (hand_over json floats messages works taken (publication_of json floats m) s)
  unfolding hand_over
  hand_over-Continues taken m s = elim (Result-cases (publication_of json floats m)) [
    | inr (x, e) ↦ simp (hand_over, e) (inl refl)
    | inl (p, e) ↦ elim (Bool-cases taken) [
      | inl t ↦ simp (hand_over, e, t) (inr refl)
      | inr t ↦ simp (hand_over, e, t) (inl refl)
    ]
  ]

  publish-Continues :
      (taken : Bool) (s : State J M W) → Continues s (publish json floats messages works taken s)
  unfolding publish
  publish-Continues taken s = elim (Bool-cases (messages.empty s.outgoing)) [
    | inl b ↦ simp (publish, b) (inl refl)
    | inr b ↦ elim (Option-cases (messages.try_pop s.outgoing)) [
      | inl h ↦ simp (publish, b, h) (inl refl)
      | inr ((m, q), h) ↦
          simp (publish, b, h) (hand_over-Continues taken m (record s { outgoing = q }))
    ]
  ]

  act-Continues :
      (e : Event) (s : State J M W) → Continues s (act json floats messages works routes e s)
  unfolding act
  act-Continues (arrives topic text) s = arrive-Continues topic text s
  act-Continues ingests s = inl (ingest-published s)
  act-Continues transforms s = inl (transform-SameParts json floats messages works s).same_published
  act-Continues (publishes taken) s = publish-Continues taken s

  step_kept :
      (e : Event) (s : State J M W)
      → s.terminated ≡ false
      → (step json floats messages works routes e s).terminated ≡ true
      → (step json floats messages works routes e s).published ≡ s.published
  step_kept e s alive ended =
      let acted = step_lem json floats messages works routes e s alive in
      elim (act-Continues e s) [
        | inl same ↦ ap (λ x. x.published) acted ∙ same
        | inr same ↦ cc (ap (λ x. x.terminated) acted, same)
      ]

  -- A run that no exception ends, with the same publications.
  pub record AliveRun (es : List Event) (s : State J M W) : Type 0 where
    pub events : List Event
    pub alive : (run json floats messages works routes events s).terminated ≡ false
    pub same_published :
        (run json floats messages works routes es s).published
        ≡ (run json floats messages works routes events s).published

  pub alive_run : (es : List Event) (s : State J M W) → s.terminated ≡ false → AliveRun es s
  unfolding run
  alive_run [] s alive = record { events = []; alive = alive; same_published = refl }
  alive_run (e ∷ es) s alive =
      let s' : State J M W = step json floats messages works routes e s in
      elim (Bool-cases s'.terminated) [
        | inr b ↦
            let rest = alive_run es s' b in
            record {
              events = e ∷ rest.events;
              alive = rest.alive;
              same_published = rest.same_published;
            }
        | inl b ↦ record {
          events = [];
          alive = alive;
          same_published =
              ap (λ x. x.published) (run_ended json floats messages works routes es s' b)
              ∙ step_kept e s alive b;
        }
      ]
