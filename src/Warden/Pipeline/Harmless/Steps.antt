-- ===== src/Warden/Pipeline/Harmless/Steps.antt =====
-- Harmless steps leave nothing under way that will throw.
use mqttraffic_warden.Common.{
  ◌≡◌, sym, inl, inr, true, none, List, [], ◌∷◌, Text, is_empty, All, All-append, ok, ◌>>=◌,
  ok-of_is_ok, arith, Bool-cases, Option-cases, List-cases, Result-cases,
}
use mqttraffic_warden.Json.{JsonOps, FloatOps}
use mqttraffic_warden.Queue.{QueueOps, QueueLaws}
use mqttraffic_warden.Warden.Routes.{RouteConfigurations}
use mqttraffic_warden.Warden.Pipeline.{
  State, Message, Work, Job, to_transform, to_publish, run_work, publication_of, message_arrived,
  hand_on, ingest, finish, process, transform, hand_over, publish,
}
use mqttraffic_warden.Warden.Pipeline.Schedule.{
  Event, arrives, ingests, transforms, publishes, or_terminate, act, step, run,
}
use mqttraffic_warden.Warden.Pipeline.Alive.{step_lem}
use mathlib.Core.Path.{subst}
use mqttraffic_warden.Warden.Pipeline.Harmless.{
  Prints, Transforms, Succeeds, AllSucceed, AllPrint, IsHarmless, GoesWell,
}

module _ {J F D M W : Type 0} (json : JsonOps J F D) (floats : FloatOps F D)
    (routes : RouteConfigurations) (messages : QueueOps (Message J) M) (works : QueueOps (Work J) W)
    (mlaws : QueueLaws messages) (wlaws : QueueLaws works) where
  abbrev Printed : Message J → Type 0
  Printed = Prints json floats routes

  abbrev Transformed : Work J → Type 0
  Transformed = Transforms json floats routes

  abbrev Well : State J M W → Type 0
  Well = GoesWell json floats routes messages works

  pushed :
      (P : Message J → Type 0) (m : Message J) (q : M)
      → All P (messages.contents q)
      → P m
      → All P (messages.contents (messages.push m q))
  pushed P m q hs h =
      rw (mlaws.contents-push m q) (All-append P (messages.contents q) (m ∷ []) hs (h, tt))

  pushed_work :
      (w : Work J) (q : W)
      → All Transformed (works.contents q)
      → Transformed w
      → All Transformed (works.contents (works.push w q))
  pushed_work w q hs h =
      rw (wlaws.contents-push w q) (All-append Transformed (works.contents q) (w ∷ []) hs (h, tt))

  arrive-GoesWell :
      (topic text : Text) (s : State J M W)
      → (IsHarmless json floats routes) (arrives topic text)
      → Well s
      → Well (act json floats messages works routes (arrives topic text) s)
  unfolding act or_terminate message_arrived
  arrive-GoesWell topic text s (payload, e, h) g =
      subst
        (λ r. Well (
          or_terminate json floats messages works routes s
            (r >>= λ p. ok (record s { incoming = messages.push (topic, p) s.incoming }))))
        (sym e)
        (record {
          alive = g.alive;
          incoming_well =
              pushed (AllSucceed json floats routes) (topic, payload) s.incoming g.incoming_well h;
          ingested_well = g.ingested_well;
          transforming_well = g.transforming_well;
          transformed_well = g.transformed_well;
          outgoing_well = g.outgoing_well;
        })

  hand_on-GoesWell :
      (j : Job J) (rest : List (Job J)) (s : State J M W)
      → (Succeeds json floats routes) j
      → All (Succeeds json floats routes) rest
      → Well s
      → Well (hand_on json floats messages works j rest s)
  unfolding hand_on
  hand_on-GoesWell (to_transform w) rest s h hs g = record {
    alive = g.alive;
    incoming_well = g.incoming_well;
    ingested_well = hs;
    transforming_well = pushed_work w s.transforming g.transforming_well h;
    transformed_well = g.transformed_well;
    outgoing_well = g.outgoing_well;
  }
  hand_on-GoesWell (to_publish m) rest s h hs g = record {
    alive = g.alive;
    incoming_well = g.incoming_well;
    ingested_well = hs;
    transforming_well = g.transforming_well;
    transformed_well = g.transformed_well;
    outgoing_well = pushed Printed m s.outgoing g.outgoing_well h;
  }

  ingest-GoesWell : (s : State J M W) → Well s → Well (ingest json floats messages works routes s)
  unfolding ingest
  ingest-GoesWell s g = elim (List-cases s.ingested) [
    | inr (j, rest, e) ↦
        let (h, hs) = subst (All (Succeeds json floats routes)) e g.ingested_well in
        rw (ingest, e) (hand_on-GoesWell j rest s h hs g)
    | inl e ↦ elim (Bool-cases (messages.empty s.incoming)) [
      | inl b ↦ rw (ingest, e, b) g
      | inr b ↦ elim (Option-cases (messages.try_pop s.incoming)) [
        | inl h ↦ rw (ingest, e, b, h) g
        | inr ((m, q), h) ↦
            let (first, others) =
              subst (All (AllSucceed json floats routes)) (mlaws.try_pop_some s.incoming q m h)
                g.incoming_well in
            rw (ingest, e, b, h)
              (record {
                alive = g.alive;
                incoming_well = others;
                ingested_well = first;
                transforming_well = g.transforming_well;
                transformed_well = g.transformed_well;
                outgoing_well = g.outgoing_well;
              })
      ]
    ]
  ]

  process-GoesWell :
      (w : Work J) (s : State J M W)
      → Transformed w
      → s.transformed ≡ none
      → Well s
      → Well (process json floats messages works w s)
  unfolding process finish
  process-GoesWell w s h e g = elim (Bool-cases (is_empty w.stream_transformer_list)) [
    | inl b ↦ rw (process, b) g
    | inr b ↦ elim (Result-cases (run_work json floats w)) [
      | inr (x, r) ↦ absurd (ground arith)
      | inl (m, r) ↦
          rw (process, b, r, finish)
            (record {
              alive = g.alive;
              incoming_well = g.incoming_well;
              ingested_well = g.ingested_well;
              transforming_well = g.transforming_well;
              transformed_well = rw r at h;
              outgoing_well = g.outgoing_well;
            })
    ]
  ]

  transform-GoesWell : (s : State J M W) → Well s → Well (transform json floats messages works s)
  unfolding transform
  transform-GoesWell s g = elim (Option-cases s.transformed) [
    | inr (m, e) ↦
        rw (transform, e)
          (record {
            alive = g.alive;
            incoming_well = g.incoming_well;
            ingested_well = g.ingested_well;
            transforming_well = g.transforming_well;
            transformed_well = tt;
            outgoing_well =
                pushed Printed m s.outgoing g.outgoing_well
                  (subst (AllPrint json floats routes) e g.transformed_well);
          })
    | inl e ↦ elim (Bool-cases (works.empty s.transforming)) [
      | inl b ↦ rw (transform, e, b) g
      | inr b ↦ elim (Option-cases (works.try_pop s.transforming)) [
        | inl h ↦ rw (transform, e, b, h) g
        | inr ((w, q), h) ↦
            let (first, others) =
              subst (All Transformed) (wlaws.try_pop_some s.transforming q w h)
                g.transforming_well in
            rw (transform, e, b, h)
              (process-GoesWell w (record s { transforming = q }) first e
                (record {
                  alive = g.alive;
                  incoming_well = g.incoming_well;
                  ingested_well = g.ingested_well;
                  transforming_well = others;
                  transformed_well = g.transformed_well;
                  outgoing_well = g.outgoing_well;
                }))
      ]
    ]
  ]

  publish-GoesWell : (s : State J M W) → Well s → Well (publish json floats messages works true s)
  unfolding publish hand_over
  publish-GoesWell s g = elim (Bool-cases (messages.empty s.outgoing)) [
    | inl b ↦ rw (publish, b) g
    | inr b ↦ elim (Option-cases (messages.try_pop s.outgoing)) [
      | inl h ↦ rw (publish, b, h) g
      | inr ((m, q), h) ↦
          let (first, others) =
            subst (All Printed) (mlaws.try_pop_some s.outgoing q m h) g.outgoing_well in
          let (p, r) = ok-of_is_ok (publication_of json floats m) first in
          rw (publish, b, h, r, hand_over)
            (record {
              alive = g.alive;
              incoming_well = g.incoming_well;
              ingested_well = g.ingested_well;
              transforming_well = g.transforming_well;
              transformed_well = g.transformed_well;
              outgoing_well = others;
            })
    ]
  ]

  pub act-GoesWell :
      (e : Event) (s : State J M W)
      → (IsHarmless json floats routes) e
      → Well s
      → Well (act json floats messages works routes e s)
  unfolding act
  act-GoesWell (arrives topic text) s h g = arrive-GoesWell topic text s h g
  act-GoesWell ingests s h g = ingest-GoesWell s g
  act-GoesWell transforms s h g = transform-GoesWell s g
  act-GoesWell (publishes taken) s h g =
      subst (λ b. Well (publish json floats messages works b s)) (sym h) (publish-GoesWell s g)

  pub run-GoesWell :
      (es : List Event) (s : State J M W)
      → All (IsHarmless json floats routes) es
      → Well s
      → Well (run json floats messages works routes es s)
  unfolding run
  run-GoesWell [] s hs g = g
  run-GoesWell (e ∷ es) s (h, hs) g =
      run-GoesWell es (step json floats messages works routes e s) hs
        (rw (step_lem json floats messages works routes e s g.alive) (act-GoesWell e s h g))
