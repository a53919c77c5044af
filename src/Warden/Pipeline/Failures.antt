-- ===== src/Warden/Pipeline/Failures.antt =====
-- What ends the process, from the callback and from the client.
use mqttraffic_warden.Common.{
  ◌≡◌, ◌≢◌, refl, ap, ◌∙◌, inl, inr, Option-cases, Result-cases, true, false, some, List, [], ◌∷◌,
  Text, throw, Exception, is_empty,
}
use mqttraffic_warden.Json.{JsonOps, FloatOps}
use mqttraffic_warden.Queue.{QueueOps, QueueLaws}
use mqttraffic_warden.Warden.Routes.{RouteConfigurations}
use mqttraffic_warden.Warden.Pipeline.{
  State, Message, Work, terminate, message_arrived, publication_of, hand_over, publish,
}
use mqttraffic_warden.Warden.Pipeline.Schedule.{Event, arrives, publishes, act, step, run}
use mqttraffic_warden.Warden.Pipeline.Alive.{step_lem, run_ended}

module _ {J F D M W : Type 0} (json : JsonOps J F D) (floats : FloatOps F D)
    (messages : QueueOps (Message J) M) (works : QueueOps (Work J) W)
    (routes : RouteConfigurations) where
  pub act_malformed :
      (topic text : Text) (x : Exception) (s : State J M W)
      → json.parse text ≡ throw x
      → act json floats messages works routes (arrives topic text) s ≡ terminate s
  unfolding act message_arrived
  act_malformed topic text x s e = simp (act, message_arrived, e)

  act_refused :
      (m : Message J) (q : M) (s : State J M W)
      → messages.empty s.outgoing ≡ false
      → messages.try_pop s.outgoing ≡ some (m, q)
      → act json floats messages works routes (publishes false) s
        ≡ terminate (record s { outgoing = q })
  unfolding act publish hand_over
  act_refused m q s b e = elim (Result-cases (publication_of json floats m)) [
    | inl (p, r) ↦ simp (act, publish, b, e, r, hand_over)
    | inr (x, r) ↦ simp (act, publish, b, e, r, hand_over)
  ]

  popped :
      (mlaws : QueueLaws messages) (s : State J M W)
      → messages.contents s.outgoing ≢ []
      → (m : Message J) × (q : M) × (messages.empty s.outgoing ≡ false)
        × (messages.try_pop s.outgoing ≡ some (m, q))
  popped mlaws s h = elim (Option-cases (messages.try_pop s.outgoing)) [
    | inl e ↦ absurd (h (mlaws.try_pop_none s.outgoing e))
    | inr ((m, q), e) ↦
        (m, q, mlaws.empty_iff s.outgoing ∙ ap is_empty (mlaws.try_pop_some s.outgoing q m e), e)
  ]

  -- If the client throws at a publication, as it does without a connection, the process ends, whatever
  -- happens later: the message that was popped is not published, and what has been published stays.
  pub refused_publication :
      (mlaws : QueueLaws messages) (s : State J M W) (later : List Event)
      → s.terminated ≡ false
      → messages.contents s.outgoing ≢ []
      → ((run json floats messages works routes (publishes false ∷ later) s).terminated ≡ true)
        × ((run json floats messages works routes (publishes false ∷ later) s).published
            ≡ s.published)
  unfolding run
  refused_publication mlaws s later alive h =
      let (m, q, b, e) = popped mlaws s h in
      let ended : step json floats messages works routes (publishes false) s
          ≡ terminate (record s { outgoing = q }) =
        step_lem json floats messages works routes (publishes false) s alive
        ∙ act_refused m q s b e in
      let all : run json floats messages works routes (publishes false ∷ later) s
          ≡ terminate (record s { outgoing = q }) =
        rw ended (
          run_ended json floats messages works routes later (terminate (record s { outgoing = q }))
            refl) in
      (ap (λ x. x.terminated) all, ap (λ x. x.published) all)
