-- ===== src/Warden/Pipeline/Order.antt =====
-- The order of the publications where the routes are all alike.
use mqttraffic_warden.Common.{
  ◌≡◌, refl, sym, ap, ◌∙◌, Bool, false, inl, inr, List, [], ◌∷◌, ◌++◌, append_assoc, append-nil,
  flat_map-append, Text, Bool-cases, Option-cases, Result-cases,
}
use mqttraffic_warden.Json.{JsonOps, FloatOps}
use mqttraffic_warden.Queue.{QueueOps, QueueLaws}
use mqttraffic_warden.Warden.Routes.{RouteConfigurations}
use mqttraffic_warden.Warden.Pipeline.{
  State, Message, Work, Publication, publication_of, message_arrived, hand_over, publish,
}
use mqttraffic_warden.Warden.Pipeline.Schedule.{
  Event, arrives, ingests, transforms, publishes, act, step, run, delivery, deliveries,
}
use mqttraffic_warden.Warden.Pipeline.Alive.{step_alive, run_alive, step_lem}
use mqttraffic_warden.Warden.Pipeline.Owed.{owed_of_idle, of_message, expected, owed, IsIdle}
use mqttraffic_warden.Warden.Pipeline.Kinds.{IsUniform}
use mathlib.Core.List.{flat_map}
use mqttraffic_warden.Warden.Pipeline.InOrder.{
  InOrder, idle-InOrder, Keeps, ingest-Keeps, transform-Keeps,
}

module _ {J F D M W : Type 0} (json : JsonOps J F D) (floats : FloatOps F D)
    (routes : RouteConfigurations) (messages : QueueOps (Message J) M) (works : QueueOps (Work J) W)
    (mlaws : QueueLaws messages) (wlaws : QueueLaws works) (kind : Bool)
    (uniform : IsUniform kind routes) where
  abbrev go_owed : State J M W → List Publication
  go_owed = owed json floats routes messages works

  abbrev Ordered : State J M W → Type 0
  Ordered = InOrder json floats routes messages works mlaws wlaws kind uniform

  abbrev Kept : State J M W → State J M W → Type 0
  Kept = Keeps json floats routes messages works mlaws wlaws kind uniform

  hand_over-Keeps :
      (taken : Bool) (s : State J M W) (m : Message J) (q : M)
      → messages.contents s.outgoing ≡ m ∷ messages.contents q
      → Ordered s
      → (hand_over json floats messages works taken
          (publication_of json floats m)
          (record s { outgoing = q })).terminated
        ≡ false
      → Kept s (
          hand_over json floats messages works taken
            (publication_of json floats m)
            (record s { outgoing = q }))
  unfolding hand_over owed of_message flat_map
  hand_over-Keeps taken s m q h i alive = elim (Result-cases (publication_of json floats m)) [
    | inr (x, e) ↦ cc (simp (e, hand_over) at alive)
    | inl (p, e) ↦ elim (Bool-cases taken) [
      | inl t ↦
          simp (e, t, hand_over)
            (
              record { jobs = i.jobs; direct = i.direct },
              simp (h, e, of_message, flat_map, append_assoc),
            )
      | inr t ↦ cc (simp (e, t, hand_over) at alive)
    ]
  ]

  publish-Keeps :
      (taken : Bool) (s : State J M W)
      → Ordered s
      → (publish json floats messages works taken s).terminated ≡ false
      → Kept s (publish json floats messages works taken s)
  unfolding publish
  publish-Keeps taken s i alive = elim (Bool-cases (messages.empty s.outgoing)) [
    | inl b ↦ simp (publish, b) (i, refl)
    | inr b ↦ elim (Option-cases (messages.try_pop s.outgoing)) [
      | inl h ↦ simp (publish, b, h) (i, refl)
      | inr ((m, q), h) ↦
          simp (publish, b, h)
            (hand_over-Keeps taken s m q (mlaws.try_pop_some s.outgoing q m h) i
              (simp (publish, b, h) at alive))
    ]
  ]

  arrive-owed :
      (topic text : Text) (s : State J M W)
      → (act json floats messages works routes (arrives topic text) s).terminated ≡ false
      → Ordered s
      → Ordered (act json floats messages works routes (arrives topic text) s)
        × (go_owed (act json floats messages works routes (arrives topic text) s)
            ≡ go_owed s
              ++ flat_map (expected json floats routes) (delivery json (arrives topic text)))
  unfolding act owed flat_map
  arrive-owed topic text s alive i = elim (Result-cases (json.parse text)) [
    | inl (payload, e) ↦
        simp (act, message_arrived, e)
          (
            record { jobs = i.jobs; direct = i.direct },
            simp (mlaws.contents-push, flat_map-append, append_assoc, append-nil, flat_map),
          )
    | inr (x, e) ↦ cc (simp (act, message_arrived, e) at alive)
  ]

  -- A step of a thread delivers no message.
  undelivered : (s s' : State J M W) → Kept s s' → Ordered s' × (go_owed s' ≡ go_owed s ++ [])
  undelivered s s' (i, e) = (i, e ∙ sym (append-nil (go_owed s)))

  act-owed :
      (e : Event) (s : State J M W)
      → (act json floats messages works routes e s).terminated ≡ false
      → Ordered s
      → Ordered (act json floats messages works routes e s)
        × (go_owed (act json floats messages works routes e s)
            ≡ go_owed s ++ flat_map (expected json floats routes) (delivery json e))
  unfolding act flat_map
  act-owed (arrives topic text) s alive i = arrive-owed topic text s alive i
  act-owed ingests s alive i =
      undelivered s _ (ingest-Keeps json floats routes messages works mlaws wlaws kind uniform s i)
  act-owed transforms s alive i =
      undelivered s _
        (transform-Keeps json floats routes messages works mlaws wlaws kind uniform s i alive)
  act-owed (publishes taken) s alive i = undelivered s _ (publish-Keeps taken s i alive)

  step-owed :
      (e : Event) (s : State J M W)
      → (step json floats messages works routes e s).terminated ≡ false
      → Ordered s
      → Ordered (step json floats messages works routes e s)
        × (go_owed (step json floats messages works routes e s)
            ≡ go_owed s ++ flat_map (expected json floats routes) (delivery json e))
  step-owed e s alive i =
      let acted =
        step_lem json floats messages works routes e s
          (step_alive json floats messages works routes e s alive) in
      rw acted (act-owed e s (rw acted at alive) i)

  run-owed :
      (es : List Event) (s : State J M W)
      → (run json floats messages works routes es s).terminated ≡ false
      → Ordered s
      → go_owed (run json floats messages works routes es s)
        ≡ go_owed s ++ flat_map (expected json floats routes) (deliveries json es)
  unfolding run deliveries flat_map
  run-owed [] s alive i = sym (append-nil (go_owed s))
  run-owed (e ∷ es) s alive i =
      let s' : State J M W = step json floats messages works routes e s in
      let (i', first) = step-owed e s (run_alive json floats messages works routes es s' alive) i in
      run-owed es s' alive i'
      ∙ ap (λ l. l ++ flat_map (expected json floats routes) (deliveries json es)) first
      ∙ append_assoc (go_owed s) (flat_map (expected json floats routes) (delivery json e)) _
      ∙ ap (◌++◌ (go_owed s)) (
          sym
            (flat_map-append (expected json floats routes) (delivery json e) (deliveries json es)))

  -- For routes that all have transformers, or all have none: a run, in any order of the threads' steps,
  -- that no exception ends and that starts and ends idle adds to what has been published the
  -- publications that the specification asks for the messages that have arrived, in the order of their
  -- arrival, and for each message in the order of the routes of its topic.
  pub published_in_order :
      (es : List Event) (s : State J M W)
      → IsIdle json floats routes messages works s
      → (run json floats messages works routes es s).terminated ≡ false
      → IsIdle json floats routes messages works (run json floats messages works routes es s)
      → (run json floats messages works routes es s).published
        ≡ s.published ++ flat_map (expected json floats routes) (deliveries json es)
  published_in_order es s i alive j =
      sym (
        owed_of_idle json floats routes messages works (run json floats messages works routes es s)
          j)
      ∙ run-owed es s alive
          (idle-InOrder json floats routes messages works mlaws wlaws kind uniform s i)
      ∙ ap (λ l. l ++ flat_map (expected json floats routes) (deliveries json es))
          (owed_of_idle json floats routes messages works s i)
