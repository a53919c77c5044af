-- ===== src/Warden/Gateway/Runs.antt =====
-- A run of the gateway as a run of steps of the threads.
use mqttraffic_warden.Common.{
  ◌≡◌, refl, sym, ap, ◌∙◌, Bool, List, [], ◌∷◌, ◌++◌, append_assoc, append-nil, Text,
}
use mqttraffic_warden.Json.{JsonOps, FloatOps}
use mqttraffic_warden.Queue.{QueueOps}
use mqttraffic_warden.Client.{is_connected}
use mqttraffic_warden.Warden.Routes.{RouteConfigurations}
use mqttraffic_warden.Warden.Pipeline.{State, Message, Work}
use mqttraffic_warden.Warden.Pipeline.Schedule.{
  Event, arrives, ingests, transforms, publishes, arrived, step, run, delivery, deliveries,
}
use mqttraffic_warden.Warden.Gateway.{
  Gateway, Move, reported, delivered, ingested, transformed, published, Moves, at_start, further,
}

deliveries-concat :
    {J F D : Type 0} (json : JsonOps J F D) (es : List Event) (e : Event)
    → deliveries json (es ++ e ∷ []) ≡ deliveries json es ++ delivery json e
unfolding deliveries
deliveries-concat json [] e = append-nil (delivery json e)
deliveries-concat json (d ∷ es) e =
    ap (◌++◌ (delivery json d)) (deliveries-concat json es e)
    ∙ sym (append_assoc (delivery json d) (deliveries json es) (delivery json e))

module _ {J F D M W : Type 0} (json : JsonOps J F D) (floats : FloatOps F D)
    (messages : QueueOps (Message J) M) (works : QueueOps (Work J) W) (routes : RouteConfigurations)
    (matches : Text → Text → Bool) where
  abbrev pub Run : Gateway J M W → Gateway J M W → Type 0
  Run = Moves json floats messages works routes matches

  -- The messages that the broker has delivered, without those whose payload is no JSON text.
  abbrev pub arrived_in : {g h : Gateway J M W} → Run g h → List (Message J)
  arrived_in at_start = []
  arrived_in (further ms (reported r)) = arrived_in ms
  arrived_in (further ms (delivered topic text a c h)) =
      arrived_in ms ++ arrived topic (json.parse text)
  arrived_in (further ms (ingested a)) = arrived_in ms
  arrived_in (further ms (transformed a)) = arrived_in ms
  arrived_in (further ms (published a)) = arrived_in ms

  run-concat :
      (es : List Event) (e : Event) (s : State J M W)
      → run json floats messages works routes (es ++ e ∷ []) s
        ≡ step json floats messages works routes e (run json floats messages works routes es s)
  unfolding run
  run-concat [] e s = refl
  run-concat (d ∷ es) e s = run-concat es e (step json floats messages works routes d s)

  -- A run of the threads with the same outcome, and with the same messages.
  pub record Schedule {g h : Gateway J M W} (ms : Run g h) : Type 0 where
    pub events : List Event
    pub same_state : run json floats messages works routes events g.pipeline ≡ h.pipeline
    pub same_messages : deliveries json events ≡ arrived_in ms

  longer :
      {g h k : Gateway J M W} (ms : Run g h)
      (m : Move json floats messages works routes matches h k) (e : Event)
      → step json floats messages works routes e h.pipeline ≡ k.pipeline
      → arrived_in ms ++ delivery json e ≡ arrived_in (further ms m)
      → Schedule ms
      → Schedule (further ms m)
  longer {g} ms m e p q s = record {
    events = s.events ++ e ∷ [];
    same_state =
        run-concat s.events e g.pipeline
        ∙ ap (step json floats messages works routes e) s.same_state
        ∙ p;
    same_messages =
        deliveries-concat json s.events e ∙ ap (λ l. l ++ delivery json e) s.same_messages ∙ q;
  }

  pub schedule : {g h : Gateway J M W} (ms : Run g h) → Schedule ms
  unfolding run deliveries
  schedule at_start = record { events = []; same_state = refl; same_messages = refl }
  schedule (further ms (reported r)) =
      let s = schedule ms in
      record { events = s.events; same_state = s.same_state; same_messages = s.same_messages }
  schedule (further ms (delivered topic text a c h)) =
      longer ms (delivered topic text a c h) (arrives topic text) refl refl (schedule ms)
  schedule (further ms (ingested a)) =
      longer ms (ingested a) ingests refl (append-nil _) (schedule ms)
  schedule (further ms (transformed a)) =
      longer ms (transformed a) transforms refl (append-nil _) (schedule ms)
  schedule (further {h = h} ms (published a)) =
      longer ms (published a) (publishes (is_connected h.client.phase)) refl (append-nil _)
        (schedule ms)
