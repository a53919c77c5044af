-- ===== src/Warden/Gateway/Failures.antt =====
-- What ends the process, at the gateway.
use mqttraffic_warden.Common.{
  ◌≡◌, ◌≢◌, sym, ap, ◌∙◌, Bool, true, false, List, [], ◌∷◌, ◌++◌, Text, is_ok,
}
use mqttraffic_warden.Json.{JsonOps, FloatOps}
use mqttraffic_warden.Queue.{QueueOps, QueueLaws}
use mqttraffic_warden.Client.{is_connected}
use mqttraffic_warden.Warden.Routes.{RouteConfigurations}
use mqttraffic_warden.Warden.Pipeline.{Message, Work}
use mqttraffic_warden.Warden.Pipeline.Schedule.{publishes, run}
use mqttraffic_warden.Warden.Pipeline.Failures.{refused_publication}
use mqttraffic_warden.Warden.Gateway.{
  Gateway, Moves, at_start, further, reported, delivered, ingested, transformed, published,
  after_event,
}
use mqttraffic_warden.Warden.Gateway.Runs.{schedule}

module _ {J F D M W : Type 0} (json : JsonOps J F D) (floats : FloatOps F D)
    (messages : QueueOps (Message J) M) (works : QueueOps (Work J) W) (routes : RouteConfigurations)
    (matches : Text → Text → Bool) where
  -- The topics and the texts of the messages that the broker has delivered.
  abbrev pub delivered_in :
      {g h : Gateway J M W}
      → Moves json floats messages works routes matches g h
      → List (Text × Text)
  delivered_in at_start = []
  delivered_in (further ms (reported r)) = delivered_in ms
  delivered_in (further ms (delivered topic text a c h)) = delivered_in ms ++ (topic, text) ∷ []
  delivered_in (further ms (ingested a)) = delivered_in ms
  delivered_in (further ms (transformed a)) = delivered_in ms
  delivered_in (further ms (published a)) = delivered_in ms

  abbrev pub IsJson : Text × Text → Type 0
  IsJson d = is_ok (json.parse d.1) ≡ true

  -- A publication without a connection ends the process: if the client is not connected and the outgoing
  -- queue is not empty when the publish thread makes a step, then whatever the Paho client reports, the
  -- broker delivers and the threads do later, also after a new connection, nothing more is published.
  pub disconnected_publication :
      (mlaws : QueueLaws messages) (g h : Gateway J M W)
      → g.pipeline.terminated ≡ false
      → is_connected g.client.phase ≡ false
      → messages.contents g.pipeline.outgoing ≢ []
      → Moves json floats messages works routes matches
          (after_event json floats messages works routes matches
            (publishes (is_connected g.client.phase))
            g)
          h
      → (h.pipeline.terminated ≡ true) × (h.pipeline.published ≡ g.pipeline.published)
  unfolding run
  disconnected_publication mlaws g h alive off some_left ms =
      let s = schedule json floats messages works routes matches ms in
      let same : run json floats messages works routes (publishes false ∷ s.events) g.pipeline
          ≡ h.pipeline =
        ap (λ b. run json floats messages works routes (publishes b ∷ s.events) g.pipeline)
          (sym off)
        ∙ s.same_state in
      let (ended, kept) =
        refused_publication json floats messages works routes mlaws g.pipeline s.events alive
          some_left in
      (ap (λ p. p.terminated) (sym same) ∙ ended, ap (λ p. p.published) (sym same) ∙ kept)
