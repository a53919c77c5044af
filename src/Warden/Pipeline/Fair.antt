-- ===== src/Warden/Pipeline/Fair.antt =====
-- The threads in any order in which each has its turn again and again.
use mqttraffic_warden.Common.{
  ℕ, suc, ◌≤◌, ◌≡◌, refl, sym, ap, ◌∙◌, ◌⊎◌, inl, inr, Bool, true, false, List, [], ◌∷◌, ◌++◌,
  append_assoc, arith, Bool-cases, All, length,
}
use mqttraffic_warden.Json.{JsonOps, FloatOps}
use mqttraffic_warden.Queue.{QueueOps, QueueLaws}
use mqttraffic_warden.Warden.Routes.{RouteConfigurations}
use mqttraffic_warden.Warden.Pipeline.{State, Message, Work}
use mqttraffic_warden.Warden.Pipeline.Schedule.{
  Event, arrives, ingests, transforms, publishes, act, step, run, deliveries,
}
use mqttraffic_warden.Warden.Pipeline.Owed.{IsIdle}
use mqttraffic_warden.Warden.Pipeline.Alive.{step_lem, run_ended}
use mqttraffic_warden.Warden.Pipeline.Progress.{
  steps_left, Moved, ingest-Moved, transform-Moved, publish-Moved,
}
use mqttraffic_warden.Warden.Pipeline.Progress.Rest.{
  NothingToIngest, NothingToTransform, NothingToPublish, idle-steps_left, steps_left-IsIdle,
}
use mathlib.Core.Path.{subst}
use mathlib.Core.List.{Memᴰ}

-- The event is a step of a thread, not an arrival.
abbrev pub by_thread : Event → Bool
by_thread (arrives topic text) = false
by_thread ingests = true
by_thread transforms = true
by_thread (publishes taken) = true

-- In this part of a run nothing arrives, and each thread makes at least one step, in any order. The client may take
-- what is published or throw.
pub record IsFair (es : List Event) : Type 0 where
  pub no_arrival : All (λ e. by_thread e ≡ true) es
  pub ingests_once : Memᴰ ingests es
  pub transforms_once : Memᴰ transforms es
  pub taken : Bool
  pub publishes_once : Memᴰ (publishes taken) es

-- The parts of a run, one after the other.
abbrev pub in_turn : List (List Event) → List Event
in_turn [] = []
in_turn (es ∷ parts) = es ++ in_turn parts

All-Memᴰ : (P : Event → Type 0) (e : Event) (es : List Event) → All P es → Memᴰ e es → P e
All-Memᴰ P e [] hs m = elim m [ ]
All-Memᴰ P e (x ∷ es) (h, hs) (Memᴰ.head same) = subst P (sym same) h
All-Memᴰ P e (x ∷ es) (h, hs) (Memᴰ.tail m) = All-Memᴰ P e es hs m

module _ {J F D M W : Type 0} (json : JsonOps J F D) (floats : FloatOps F D)
    (messages : QueueOps (Message J) M) (works : QueueOps (Work J) W)
    (routes : RouteConfigurations) where
  abbrev left : State J M W → ℕ
  left = steps_left json floats messages works routes

  abbrev GoesOn : Type 0 → State J M W → State J M W → Type 0
  GoesOn = Moved json floats messages works routes

  abbrev go_step : Event → State J M W → State J M W
  go_step = step json floats messages works routes

  abbrev go_run : List Event → State J M W → State J M W
  go_run = run json floats messages works routes

  run-append :
      (es fs : List Event) (s : State J M W) → go_run (es ++ fs) s ≡ go_run fs (go_run es s)
  unfolding run
  run-append [] fs s = refl
  run-append (e ∷ es) fs s = run-append es fs (go_step e s)

  ended_stays :
      (es : List Event) (s : State J M W) → s.terminated ≡ true → (go_run es s).terminated ≡ true
  ended_stays es s ended =
      ap (λ x. x.terminated) (run_ended json floats messages works routes es s ended) ∙ ended

  module _ (mlaws : QueueLaws messages) (wlaws : QueueLaws works) where
    -- What a thread waits for.
    abbrev NothingFor : State J M W → Event → Type 0
    NothingFor s (arrives topic text) = Unit
    NothingFor s ingests = NothingToIngest json floats messages works routes mlaws wlaws s
    NothingFor s transforms = NothingToTransform json floats messages works routes mlaws wlaws s
    NothingFor s (publishes taken) =
        NothingToPublish json floats messages works routes mlaws wlaws s

    act-Moved :
        (e : Event) (s : State J M W)
        → by_thread e ≡ true
        → GoesOn (NothingFor s e) s (act json floats messages works routes e s)
    unfolding act
    act-Moved (arrives topic text) s h = absurd (ground arith)
    act-Moved ingests s h = ingest-Moved json floats messages works routes mlaws wlaws s
    act-Moved transforms s h = transform-Moved json floats messages works routes mlaws wlaws s
    act-Moved (publishes taken) s h =
        publish-Moved json floats messages works routes mlaws wlaws taken s

    then_run :
        (e : Event) (es : List Event) (s : State J M W)
        → GoesOn (NothingFor s e) s (act json floats messages works routes e s)
        → ((s' : State J M W) → GoesOn (All (NothingFor s') es) s' (go_run es s'))
        → GoesOn
            (NothingFor s e × All (NothingFor s) es)
            s
            (go_run es (act json floats messages works routes e s))
    then_run e es s (inl ended) next =
        inl (ended_stays es (act json floats messages works routes e s) ended)
    then_run e es s (inr (inl fewer)) next =
        elim (next (act json floats messages works routes e s)) [
          | inl ended ↦ inl ended
          | inr (inl after) ↦ inr (inl (omega (arith, fewer, after)))
          | inr (inr (same, quiet)) ↦ inr (inl (omega (arith, fewer, ap left same)))
        ]
    then_run e es s (inr (inr (same, q))) next = rw same (elim (next s) [
      | inl ended ↦ inl ended
      | inr (inl fewer) ↦ inr (inl fewer)
      | inr (inr (same', qs)) ↦ inr (inr (same', (q, qs)))
    ])

    -- Steps of the threads end the process, or leave fewer steps, or none of these threads has anything to do.
    run-Moved :
        (es : List Event) (s : State J M W)
        → All (λ e. by_thread e ≡ true) es
        → GoesOn (All (NothingFor s) es) s (go_run es s)
    unfolding run
    run-Moved [] s hs = inr (inr (refl, tt))
    run-Moved (e ∷ es) s (h, hs) = elim (Bool-cases s.terminated) [
      | inl ended ↦ inl (ended_stays (e ∷ es) s ended)
      | inr alive ↦
          subst (GoesOn (NothingFor s e × All (NothingFor s) es) s)
            (ap (go_run es) (sym (step_lem json floats messages works routes e s alive)))
            (then_run e es s (act-Moved e s h) (λ s'. run-Moved es s' hs))
    ]

    fair-Moved :
        (es : List Event) (s : State J M W)
        → IsFair es
        → ((go_run es s).terminated ≡ true)
          ⊎ ((suc (left (go_run es s)) ≤ left s) ⊎ ((go_run es s ≡ s) × (left s ≡ 0)))
    fair-Moved es s fair = elim (run-Moved es s fair.no_arrival) [
      | inl ended ↦ inl ended
      | inr (inl fewer) ↦ inr (inl fewer)
      | inr (inr (same, quiet)) ↦ inr (
          inr (
            same,
            idle-steps_left json floats messages works routes mlaws wlaws s (
              (
                All-Memᴰ (NothingFor s) ingests es quiet fair.ingests_once,
                All-Memᴰ (NothingFor s) transforms es quiet fair.transforms_once,
              ),
              All-Memᴰ (NothingFor s) (publishes fair.taken) es quiet fair.publishes_once,
            ),
          ))
    ]

    -- From any state, a run that consists of at least as many parts as there are steps left, where in each part nothing
    -- arrives and each thread makes at least one step, in any order, ends with no message in a queue or
    -- held by a thread, or an exception has ended the process.
    pub in_turn-IsIdle :
        (parts : List (List Event)) (s : State J M W)
        → All IsFair parts
        → steps_left json floats messages works routes s ≤ length parts
        → ((run json floats messages works routes (in_turn parts) s).terminated ≡ true)
          ⊎ IsIdle json floats routes messages works
              (run json floats messages works routes (in_turn parts) s)
    unfolding run
    in_turn-IsIdle [] s fair h =
        inr (steps_left-IsIdle json floats messages works routes mlaws wlaws s (omega (arith, h)))
    in_turn-IsIdle (es ∷ parts) s (f, fs) h =
        rw (run-append es (in_turn parts) s) (elim (fair-Moved es s f) [
          | inl ended ↦ inl (ended_stays (in_turn parts) (go_run es s) ended)
          | inr (inl fewer) ↦ in_turn-IsIdle parts (go_run es s) fs (omega (arith, h, fewer))
          | inr (inr (same, none_left)) ↦
              in_turn-IsIdle parts (go_run es s) fs (omega (arith, ap left same, none_left))
        ])

module _ {J F D : Type 0} (json : JsonOps J F D) where
  deliveries-append :
      (es fs : List Event) → deliveries json (es ++ fs) ≡ deliveries json es ++ deliveries json fs
  unfolding deliveries
  deliveries-append [] fs = refl
  deliveries-append (e ∷ es) fs = simp (deliveries, append_assoc, deliveries-append es fs)

  no_deliveries : (es : List Event) → All (λ e. by_thread e ≡ true) es → deliveries json es ≡ []
  unfolding deliveries
  no_deliveries [] hs = refl
  no_deliveries (arrives topic text ∷ es) (h, hs) = absurd (ground arith)
  no_deliveries (ingests ∷ es) (h, hs) = no_deliveries es hs
  no_deliveries (transforms ∷ es) (h, hs) = no_deliveries es hs
  no_deliveries (publishes taken ∷ es) (h, hs) = no_deliveries es hs

  -- Nothing arrives in fair parts.
  pub deliveries-in_turn :
      (parts : List (List Event)) → All IsFair parts → deliveries json (in_turn parts) ≡ []
  unfolding deliveries
  deliveries-in_turn [] fs = refl
  deliveries-in_turn (es ∷ parts) (f, fs) =
      deliveries-append es (in_turn parts)
      ∙ rw (no_deliveries es f.no_arrival) (deliveries-in_turn parts fs)
