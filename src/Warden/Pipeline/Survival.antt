-- ===== src/Warden/Pipeline/Survival.antt =====
-- What goes well in a run that no exception has ended.
use mqttraffic_warden.Common.{
  ◌≡◌, refl, inl, inr, true, false, List, [], ◌∷◌, ◌++◌, Text, All, All-left, Bool-cases,
  Option-cases, Result-cases,
}
use mqttraffic_warden.Json.{JsonOps, FloatOps}
use mqttraffic_warden.Queue.{QueueOps, QueueLaws}
use mqttraffic_warden.Warden.Routes.{RouteConfigurations}
use mqttraffic_warden.Warden.Pipeline.{
  State, Message, Work, publication_of, message_arrived, hand_over, publish,
}
use mqttraffic_warden.Warden.Pipeline.Schedule.{
  Event, arrives, ingests, transforms, publishes, or_terminate, act, step, run, delivery,
  deliveries,
}
use mqttraffic_warden.Warden.Pipeline.Alive.{step_lem, run_alive}
use mqttraffic_warden.Warden.Pipeline.Harmless.{AllSucceed, GoesWell}
use mqttraffic_warden.Warden.Pipeline.Harmless.Steps.{act-GoesWell}

All-right : {A : Type 0} (P : A → Type 0) (xs ys : List A) → All P (xs ++ ys) → All P ys
All-right P [] ys h = h
All-right P (x ∷ xs) ys (h, hs) = All-right P xs ys hs

module _ {J F D M W : Type 0} (json : JsonOps J F D) (floats : FloatOps F D)
    (routes : RouteConfigurations) (messages : QueueOps (Message J) M) (works : QueueOps (Work J) W)
    (mlaws : QueueLaws messages) (wlaws : QueueLaws works) where
  abbrev Well : State J M W → Type 0
  Well = GoesWell json floats routes messages works

  arrive-Well :
      (topic text : Text) (s : State J M W)
      → All (AllSucceed json floats routes) (delivery json (arrives topic text))
      → Well s
      → (act json floats messages works routes (arrives topic text) s).terminated ≡ false
      → Well (act json floats messages works routes (arrives topic text) s)
  unfolding act or_terminate message_arrived
  arrive-Well topic text s h g alive = elim (Result-cases (json.parse text)) [
    | inl (payload, e) ↦
        let (first, _) = rw e at h in
        act-GoesWell json floats routes messages works mlaws wlaws (arrives topic text) s
          (payload, e, first) g
    | inr (x, e) ↦ absurd (cc (rw (act, or_terminate, message_arrived, e) at alive))
  ]

  refused-Well :
      (s : State J M W)
      → Well s
      → (publish json floats messages works false s).terminated ≡ false
      → Well (publish json floats messages works false s)
  unfolding publish hand_over
  refused-Well s g alive = elim (Bool-cases (messages.empty s.outgoing)) [
    | inl b ↦ rw (publish, b) g
    | inr b ↦ elim (Option-cases (messages.try_pop s.outgoing)) [
      | inl h ↦ rw (publish, b, h) g
      | inr ((m, q), h) ↦ elim (Result-cases (publication_of json floats m)) [
        | inl (p, e) ↦ absurd (cc (rw (publish, b, h, e, hand_over) at alive))
        | inr (x, e) ↦ absurd (cc (rw (publish, b, h, e, hand_over) at alive))
      ]
    ]
  ]

  act-Well :
      (e : Event) (s : State J M W)
      → All (AllSucceed json floats routes) (delivery json e)
      → Well s
      → (act json floats messages works routes e s).terminated ≡ false
      → Well (act json floats messages works routes e s)
  unfolding act
  act-Well (arrives topic text) s h g alive = arrive-Well topic text s h g alive
  act-Well ingests s h g alive =
      act-GoesWell json floats routes messages works mlaws wlaws ingests s tt g
  act-Well transforms s h g alive =
      act-GoesWell json floats routes messages works mlaws wlaws transforms s tt g
  act-Well (publishes true) s h g alive =
      act-GoesWell json floats routes messages works mlaws wlaws (publishes true) s refl g
  act-Well (publishes false) s h g alive = refused-Well s g alive

  -- A run that no exception has ended, with messages whose routes all end well, leaves nothing that will throw.
  pub alive-GoesWell :
      (es : List Event) (s : State J M W)
      → All (AllSucceed json floats routes) (deliveries json es)
      → GoesWell json floats routes messages works s
      → (run json floats messages works routes es s).terminated ≡ false
      → GoesWell json floats routes messages works (run json floats messages works routes es s)
  unfolding run deliveries
  alive-GoesWell [] s hs g alive = g
  alive-GoesWell (e ∷ es) s hs g alive =
      let s' : State J M W = step json floats messages works routes e s in
      let stepped = step_lem json floats messages works routes e s g.alive in
      let alive' = run_alive json floats messages works routes es s' alive in
      alive-GoesWell es s'
        (All-right (AllSucceed json floats routes) (delivery json e) (deliveries json es) hs)
        (rw stepped (
          act-Well e s
            (All-left (AllSucceed json floats routes) (delivery json e) (deliveries json es) hs) g
            (rw stepped at alive')))
        alive
