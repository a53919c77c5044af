-- ===== src/Warden/Pipeline/Delivered.antt =====
-- What harmless runs publish in the end.
use mqttraffic_warden.Common.{
  ◌≤◌, ◌≡◌, ap, ◌∙◌, inl, inr, false, List, [], ◌++◌, All, length, weigh, weigh-length, arith,
}
use mqttraffic_warden.Json.{JsonOps, FloatOps}
use mqttraffic_warden.Queue.{QueueOps, QueueLaws}
use mqttraffic_warden.Warden.Routes.{RouteConfigurations}
use mqttraffic_warden.Warden.Pipeline.{State, Message, Work, jobs_of}
use mqttraffic_warden.Warden.Pipeline.Schedule.{Event, run, deliveries}
use mqttraffic_warden.Warden.Pipeline.Owed.{expected, owed, IsIdle, owed_of_idle}
use mqttraffic_warden.Warden.Pipeline.Progress.{steps_left}
use mqttraffic_warden.Warden.Pipeline.Fair.{IsFair, in_turn, in_turn-IsIdle}
use mqttraffic_warden.Warden.Pipeline.Harmless.{AllSucceed, IsHarmless, GoesWell}
use mqttraffic_warden.Warden.Pipeline.Counts.{length-flat_map-expected, deliveries-AllSucceed}
use mqttraffic_warden.Warden.Pipeline.Conservation.{owed-run}
use mqttraffic_warden.Warden.Pipeline.Delivery.{in_turn-owed}
use mqttraffic_warden.Warden.Pipeline.Permuted.{owed-run-Perm, in_turn-owed-Perm}
use mqttraffic_warden.Warden.Pipeline.Harmless.Steps.{run-GoesWell}
use mathlib.Core.List.Perm
use mathlib.Core.List.{Perm, flat_map}
use mathlib.Core.Path.{subst}

module _ {J F D M W : Type 0} (json : JsonOps J F D) (floats : FloatOps F D)
    (routes : RouteConfigurations) (messages : QueueOps (Message J) M) (works : QueueOps (Work J) W)
    (mlaws : QueueLaws messages) (wlaws : QueueLaws works) where
  abbrev go_run : List Event → State J M W → State J M W
  go_run = run json floats messages works routes

  pub idle-GoesWell :
      (s : State J M W)
      → IsIdle json floats routes messages works s
      → s.terminated ≡ false
      → GoesWell json floats routes messages works s
  idle-GoesWell s i alive = record {
    alive = alive;
    incoming_well = rw i.no_incoming tt;
    ingested_well = rw i.no_ingested tt;
    transforming_well = rw i.no_transforming tt;
    transformed_well = rw i.no_transformed tt;
    outgoing_well = rw i.no_outgoing tt;
  }

  -- What a run leads to, once all that it has left under way is published.
  pub record Delivers (es : List Event) (t : State J M W) : Type 0 where
    pub alive : t.terminated ≡ false
    pub idle : IsIdle json floats routes messages works t
    pub as_expected : Perm t.published (flat_map (expected json floats routes) (deliveries json es))
    pub one_for_each :
        length t.published ≡ weigh (λ m. length (jobs_of routes m)) (deliveries json es)

  -- As many publications as the routes of the messages that arrive.
  count :
      (es : List Event) (parts : List (List Event)) (s : State J M W)
      → owed json floats routes messages works s ≡ []
      → All (AllSucceed json floats routes) (deliveries json es)
      → All IsFair parts
      → steps_left json floats messages works routes (go_run es s) ≤ length parts
      → (go_run es s).terminated ≡ false
      → (go_run (in_turn parts) (go_run es s)).terminated ≡ false
      → length (go_run (in_turn parts) (go_run es s)).published
        ≡ weigh (λ m. length (jobs_of routes m)) (deliveries json es)
  count es parts s nothing_owed succeed fair enough alive alive' = omega (
    arith,
    weigh-length (go_run (in_turn parts) (go_run es s)).published,
    in_turn-owed json floats routes messages works mlaws wlaws (λ p. 1) parts (go_run es s) fair
        enough alive',
    owed-run json floats routes messages works mlaws wlaws (λ p. 1) es s alive,
    ap (weigh (λ p. 1)) nothing_owed,
    weigh-length (flat_map (expected json floats routes) (deliveries json es)),
    length-flat_map-expected json floats routes (deliveries json es) succeed,
  )

  -- After a run that no exception has ended, fair parts publish all that its messages lead to.
  pub run-Delivers :
      (es : List Event) (parts : List (List Event)) (s : State J M W)
      → IsIdle json floats routes messages works s
      → s.published ≡ []
      → All (AllSucceed json floats routes) (deliveries json es)
      → GoesWell json floats routes messages works (go_run es s)
      → All (IsHarmless json floats routes) (in_turn parts)
      → All IsFair parts
      → steps_left json floats messages works routes (go_run es s) ≤ length parts
      → Delivers es (go_run (in_turn parts) (go_run es s))
  run-Delivers es parts s i none_yet succeed well later fair enough =
      let t = go_run es s in
      let still : (go_run (in_turn parts) t).terminated ≡ false =
        (run-GoesWell json floats routes messages works mlaws wlaws (in_turn parts) t later
          well).alive in
      let nothing_owed : owed json floats routes messages works s ≡ [] =
        owed_of_idle json floats routes messages works s i ∙ none_yet in
      record {
        alive = still;
        idle =
            elim (in_turn-IsIdle json floats messages works routes mlaws wlaws parts t fair
              enough) [ inl b ↦ absurd cc | inr idle ↦ idle ];
        as_expected =
            Perm.trans
              (in_turn-owed-Perm json floats routes messages works mlaws wlaws parts t fair enough
                still)
              (subst
                (λ l.
                  Perm (owed json floats routes messages works t)
                    (l ++ flat_map (expected json floats routes) (deliveries json es)))
                nothing_owed
                (owed-run-Perm json floats routes messages works mlaws wlaws es s well.alive));
        one_for_each = count es parts s nothing_owed succeed fair enough well.alive still;
      }

  -- The threads are idle at the start and have published nothing. In a run `es`, in any order, every message
  -- that arrives is a JSON text; for each of its routes, the transformers end well or with the exception
  -- that transform catches, and the outcome can be printed; and the client takes what is published. At
  -- least as many parts follow as there are steps left, where in each part nothing arrives, each thread
  -- makes at least one step, in any order, and the client takes what is published. Then no exception has
  -- ended the process, no message is in a queue or held by a thread, what has been published is, up to
  -- its order, what the specification asks for the messages that have arrived, and that is one
  -- publication for each route of each message.
  pub each_delivered :
      (es : List Event) (parts : List (List Event)) (s : State J M W)
      → IsIdle json floats routes messages works s
      → s.published ≡ []
      → s.terminated ≡ false
      → All (IsHarmless json floats routes) es
      → All (IsHarmless json floats routes) (in_turn parts)
      → All IsFair parts
      → steps_left json floats messages works routes (go_run es s) ≤ length parts
      → ((go_run (in_turn parts) (go_run es s)).terminated ≡ false)
        × IsIdle json floats routes messages works (go_run (in_turn parts) (go_run es s))
        × Perm
            (go_run (in_turn parts) (go_run es s)).published
            (flat_map (expected json floats routes) (deliveries json es))
        × (length (go_run (in_turn parts) (go_run es s)).published
            ≡ weigh (λ m. length (jobs_of routes m)) (deliveries json es))
  each_delivered es parts s i none_yet alive harmless later fair enough =
      let d =
        run-Delivers es parts s i none_yet (deliveries-AllSucceed json floats routes es harmless)
          (run-GoesWell json floats routes messages works mlaws wlaws es s harmless
            (idle-GoesWell s i alive))
          later fair enough in
      (d.alive, d.idle, d.as_expected, d.one_for_each)
