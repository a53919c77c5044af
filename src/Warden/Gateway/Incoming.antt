-- ===== src/Warden/Gateway/Incoming.antt =====
-- The incoming queue, event by event.
use mqttraffic_warden.Common.{
  ◌≡◌, ◌≢◌, refl, inl, inr, Bool, none, List, [], ◌∷◌, Text, All, All-append, Bool-cases,
  Option-cases, List-cases, Result-cases,
}
use mqttraffic_warden.Json.{JsonOps, FloatOps}
use mqttraffic_warden.Queue.{QueueOps, QueueLaws}
use mqttraffic_warden.Warden.Routes.{RouteConfigurations, find_route}
use mqttraffic_warden.Warden.Pipeline.{
  State, Message, Work, Job, to_transform, to_publish, message_arrived, hand_on, ingest, hand_over,
  publish, publication_of,
}
use mqttraffic_warden.Warden.Pipeline.Schedule.{
  Event, arrives, ingests, transforms, publishes, act, step,
}
use mqttraffic_warden.Warden.Pipeline.Frames.{transform-SameParts}
use mqttraffic_warden.Warden.Pipeline.Alive.{step_ended, step_lem}

-- The topic has a route.
abbrev pub IsRouted : {J : Type 0} → RouteConfigurations → Message J → Type 0
IsRouted routes m = find_route m.0 routes ≢ none

module _ {J F D M W : Type 0} (json : JsonOps J F D) (floats : FloatOps F D)
    (messages : QueueOps (Message J) M) (works : QueueOps (Work J) W) where
  module _ (routes : RouteConfigurations) where
    abbrev go_act : Event → State J M W → State J M W
    go_act = act json floats messages works routes

    abbrev go_step : Event → State J M W → State J M W
    go_step = step json floats messages works routes

    module _ (mlaws : QueueLaws messages) where
      abbrev pub AllRouted : State J M W → Type 0
      AllRouted s = All (IsRouted routes) (messages.contents s.incoming)

      arrive-AllRouted :
          (topic text : Text) (s : State J M W)
          → find_route topic routes ≢ none
          → AllRouted s
          → AllRouted (go_act (arrives topic text) s)
      unfolding act message_arrived
      arrive-AllRouted topic text s h r = elim (Result-cases (json.parse text)) [
        | inl (payload, e) ↦
            simp (act, message_arrived, e, mlaws.contents-push)
              (All-append (IsRouted routes) (messages.contents s.incoming) ((topic, payload) ∷ []) r
                (h, tt))
        | inr (x, e) ↦ simp (act, message_arrived, e) r
      ]

      hand_on-incoming :
          (j : Job J) (rest : List (Job J)) (s : State J M W)
          → (hand_on json floats messages works j rest s).incoming ≡ s.incoming
      unfolding hand_on
      hand_on-incoming (to_transform w) rest s = refl
      hand_on-incoming (to_publish m) rest s = refl

      ingest-AllRouted :
          (s : State J M W) → AllRouted s → AllRouted (ingest json floats messages works routes s)
      unfolding ingest
      ingest-AllRouted s r = elim (List-cases s.ingested) [
        | inl e ↦ elim (Bool-cases (messages.empty s.incoming)) [
          | inl b ↦ simp (ingest, e, b) r
          | inr b ↦ elim (Option-cases (messages.try_pop s.incoming)) [
            | inl h ↦ simp (ingest, e, b, h) r
            | inr ((m, q), h) ↦
                let popped : All (IsRouted routes) (m ∷ messages.contents q) =
                  rw (mlaws.try_pop_some s.incoming q m h) at r in
                simp (ingest, e, b, h) (popped.1)
          ]
        ]
        | inr (j, rest, e) ↦ simp (ingest, e) (rw (hand_on-incoming j rest s) r)
      ]

      hand_over-incoming :
          (taken : Bool) (m : Message J) (s : State J M W)
          → (hand_over json floats messages works taken (publication_of json floats m) s).incoming
            ≡ s.incoming
      unfolding hand_over
      hand_over-incoming taken m s = elim (Result-cases (publication_of json floats m)) [
        | inr (x, e) ↦ simp (hand_over, e)
        | inl (p, e) ↦ elim (Bool-cases taken) [
          | inl t ↦ simp (hand_over, e, t)
          | inr t ↦ simp (hand_over, e, t)
        ]
      ]

      publish-incoming :
          (taken : Bool) (s : State J M W)
          → (publish json floats messages works taken s).incoming ≡ s.incoming
      unfolding publish
      publish-incoming taken s = elim (Bool-cases (messages.empty s.outgoing)) [
        | inl b ↦ simp (publish, b)
        | inr b ↦ elim (Option-cases (messages.try_pop s.outgoing)) [
          | inl h ↦ simp (publish, b, h)
          | inr ((m, q), h) ↦
              simp (publish, b, h) (hand_over-incoming taken m (record s { outgoing = q }))
        ]
      ]

      act-AllRouted :
          (e : Event) (s : State J M W)
          → ((topic text : Text) → e ≡ arrives topic text → find_route topic routes ≢ none)
          → AllRouted s
          → AllRouted (go_act e s)
      unfolding act
      act-AllRouted (arrives topic text) s h r = arrive-AllRouted topic text s (h topic text refl) r
      act-AllRouted ingests s h r = ingest-AllRouted s r
      act-AllRouted transforms s h r =
          rw ((transform-SameParts json floats messages works s).same_incoming) r
      act-AllRouted (publishes taken) s h r = rw (publish-incoming taken s) r

      pub step-AllRouted :
          (e : Event) (s : State J M W)
          → ((topic text : Text) → e ≡ arrives topic text → find_route topic routes ≢ none)
          → AllRouted s
          → AllRouted (go_step e s)
      step-AllRouted e s h r = elim (Bool-cases s.terminated) [
        | inl ended ↦ rw (step_ended json floats messages works routes e s ended) r
        | inr alive ↦
            rw (step_lem json floats messages works routes e s alive) (act-AllRouted e s h r)
      ]
