-- ===== src/Warden/Pipeline/Conservation.antt =====
-- What the messages under way will lead to, and what the threads publish in a run.
use mqttraffic_warden.Common.{
  ℕ, ◌+◌, ◌≡◌, ap, false, List, [], ◌∷◌, Text, arith, Result-cases, inl, inr, weigh, weigh-append,
  weigh-concat, weigh-flat_map,
}
use mqttraffic_warden.Json.{JsonOps, FloatOps}
use mqttraffic_warden.Queue.{QueueOps, QueueLaws}
use mqttraffic_warden.Warden.Routes.{RouteConfigurations}
use mqttraffic_warden.Warden.Pipeline.{State, Message, Work, Publication, message_arrived}
use mqttraffic_warden.Warden.Pipeline.Schedule.{
  Event, arrives, ingests, transforms, publishes, act, step, run, delivery, deliveries,
}
use mqttraffic_warden.Warden.Pipeline.Owed.{
  expected, owed, IsIdle, expected_weight, total, weigh-owed, ingest-total, transform-total,
  publish-total,
}
use mqttraffic_warden.Warden.Pipeline.Alive.{step_alive, run_alive}
use mathlib.Core.List.{flat_map}

module _ {J F D M W : Type 0} (json : JsonOps J F D) (floats : FloatOps F D)
    (routes : RouteConfigurations) (messages : QueueOps (Message J) M)
    (works : QueueOps (Work J) W) where
  module _ (mlaws : QueueLaws messages) (wlaws : QueueLaws works) (f : Publication → ℕ) where
    abbrev go_total : State J M W → ℕ
    go_total = total json floats routes messages works mlaws wlaws f

    abbrev go_weight : Message J → ℕ
    go_weight = expected_weight json floats routes messages works mlaws wlaws f

    abbrev go_step : Event → State J M W → State J M W
    go_step = step json floats messages works routes

    abbrev go_run : List Event → State J M W → State J M W
    go_run = run json floats messages works routes

    arrive-total :
        (topic text : Text) (s : State J M W)
        → (act json floats messages works routes (arrives topic text) s).terminated ≡ false
        → go_total (act json floats messages works routes (arrives topic text) s)
          ≡ go_total s + weigh go_weight (delivery json (arrives topic text))
    unfolding act total
    arrive-total topic text s alive = elim (Result-cases (json.parse text)) [
      | inl (payload, e) ↦
          simp (act, message_arrived, e, mlaws.contents-push, weigh-concat) (omega arith)
      | inr (x, e) ↦ cc (simp (act, message_arrived, e) at alive)
    ]

    act-total :
        (e : Event) (s : State J M W)
        → (act json floats messages works routes e s).terminated ≡ false
        → go_total (act json floats messages works routes e s)
          ≡ go_total s + weigh go_weight (delivery json e)
    unfolding act
    act-total (arrives topic text) s alive = arrive-total topic text s alive
    act-total ingests s alive =
        omega (arith, (ingest-total json floats routes messages works mlaws wlaws f) s)
    act-total transforms s alive =
        omega (arith, (transform-total json floats routes messages works mlaws wlaws f) s alive)
    act-total (publishes taken) s alive =
        omega (arith, (publish-total json floats routes messages works mlaws wlaws f) taken s alive)

    step-total :
        (e : Event) (s : State J M W)
        → (go_step e s).terminated ≡ false
        → go_total (go_step e s) ≡ go_total s + weigh go_weight (delivery json e)
    unfolding step
    step-total e s alive =
        let acted : go_step e s ≡ act json floats messages works routes e s =
          simp (step, step_alive json floats messages works routes e s alive) in
        rw acted (act-total e s (rw acted at alive))

    run-total :
        (es : List Event) (s : State J M W)
        → (go_run es s).terminated ≡ false
        → go_total (go_run es s) ≡ go_total s + weigh go_weight (deliveries json es)
    unfolding run step deliveries
    run-total [] s alive = omega arith
    run-total (e ∷ es) s alive = omega (
      arith,
      run-total es (go_step e s) alive,
      step-total e s (run_alive json floats messages works routes es (go_step e s) alive),
      weigh-append go_weight (delivery json e) (deliveries json es),
    )

    -- In every run that no exception ends, what has been published and what the messages under way
    -- will lead to is what it was before the run, together with the publications that the
    -- specification asks for the messages that have arrived: under every weight the totals agree.
    pub owed-run :
        (es : List Event) (s : State J M W)
        → (go_run es s).terminated ≡ false
        → weigh f ((owed json floats routes messages works) (go_run es s))
          ≡ weigh f ((owed json floats routes messages works) s)
            + weigh f (flat_map (expected json floats routes) (deliveries json es))
    owed-run es s alive = omega (
      arith,
      run-total es s alive,
      (weigh-owed json floats routes messages works mlaws wlaws f) s,
      (weigh-owed json floats routes messages works mlaws wlaws f) (go_run es s),
      weigh-flat_map f (expected json floats routes) (deliveries json es),
    )

    pub total_of_idle :
        (s : State J M W)
        → (IsIdle json floats routes messages works) s
        → go_total s ≡ weigh f s.published
    unfolding total
    total_of_idle s i =
        simp (i.no_incoming, i.no_ingested, i.no_transforming, i.no_transformed, i.no_outgoing)
          (omega arith)

    -- If a run that no exception ends starts idle with nothing published and ends idle, it has
    -- published exactly what the specification asks for the messages that have arrived, for every
    -- route of a message's topic the output of that route: under every weight the totals agree.
    pub published-run :
        (es : List Event) (s : State J M W)
        → (IsIdle json floats routes messages works) s
        → s.published ≡ []
        → (go_run es s).terminated ≡ false
        → (IsIdle json floats routes messages works) (go_run es s)
        → weigh f (go_run es s).published
          ≡ weigh f (flat_map (expected json floats routes) (deliveries json es))
    published-run es s i none_yet alive j = omega (
      arith,
      run-total es s alive,
      total_of_idle s i,
      total_of_idle (go_run es s) j,
      ap (weigh f) none_yet,
      weigh-flat_map f (expected json floats routes) (deliveries json es),
    )
