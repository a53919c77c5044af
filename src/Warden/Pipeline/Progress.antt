-- ===== src/Warden/Pipeline/Progress.antt =====
-- The threads, each in its turn, work off what is under way.
pub mod Rest
use mqttraffic_warden.Common.{
  weigh, weigh-concat, ℕ, suc, ◌+◌, ◌≤◌, ◌≡◌, refl, ap, ◌∙◌, ◌⊎◌, inl, inr, Bool, true, false,
  Option, none, some, List, [], ◌∷◌, ◌++◌, is_empty, arith, Bool-cases, Option-cases, List-cases,
  Result-cases,
}
use mqttraffic_warden.Json.{JsonOps, FloatOps}
use mqttraffic_warden.Queue.{QueueOps, QueueLaws}
use mqttraffic_warden.Warden.Routes.{RouteConfigurations}
use mqttraffic_warden.Warden.Pipeline.{
  State, Message, Work, Job, to_transform, to_publish, Publication, run_work, publication_of,
  jobs_of, hand_on, ingest, finish, process, transform, hand_over, publish,
}
use mqttraffic_warden.Warden.Pipeline.Owed.{IsIdle}

module _ {J : Type 0} where
  -- The steps of the threads that a job takes.
  abbrev pub job_steps : Job J → ℕ
  job_steps (to_transform w) = 4
  job_steps (to_publish m) = 2

  abbrev pub transformed_steps : Option (Message J) → ℕ
  transformed_steps none = 0
  transformed_steps (some m) = 2

module _ {J F D M W : Type 0} (json : JsonOps J F D) (floats : FloatOps F D)
    (messages : QueueOps (Message J) M) (works : QueueOps (Work J) W)
    (routes : RouteConfigurations) where
  abbrev pub message_steps : Message J → ℕ
  message_steps m = 1 + weigh job_steps (jobs_of routes m)

  -- The steps that what is under way takes at most.
  unfoldable pub steps_left : State J M W → ℕ
  steps_left s =
      weigh message_steps (messages.contents s.incoming)
      + weigh job_steps s.ingested
      + weigh (λ w. 3) (works.contents s.transforming)
      + transformed_steps s.transformed
      + weigh (λ m. 1) (messages.contents s.outgoing)

  -- A step has ended the process, or it has left fewer steps, or it has done nothing, for which `Q` is
  -- the reason.
  abbrev pub Moved : Type 0 → State J M W → State J M W → Type 0
  Moved Q s s' = (s'.terminated ≡ true) ⊎ ((suc (steps_left s') ≤ steps_left s) ⊎ ((s' ≡ s) × Q))

  module _ (mlaws : QueueLaws messages) (wlaws : QueueLaws works) where
    hand_on-steps_left :
        (j : Job J) (rest : List (Job J)) (s : State J M W)
        → s.ingested ≡ j ∷ rest
        → suc (steps_left (hand_on json floats messages works j rest s)) ≤ steps_left s
    unfolding steps_left hand_on
    hand_on-steps_left (to_transform w) rest s e =
        simp (wlaws.contents-push, weigh-concat, e) (omega arith)
    hand_on-steps_left (to_publish m) rest s e =
        simp (mlaws.contents-push, weigh-concat, e) (omega arith)

    ingest_pop-steps_left :
        (s : State J M W) (m : Message J) (q : M)
        → s.ingested ≡ []
        → messages.contents s.incoming ≡ m ∷ messages.contents q
        → suc (steps_left (record s { incoming = q; ingested = jobs_of routes m })) ≤ steps_left s
    unfolding steps_left
    ingest_pop-steps_left s m q e h = simp (e, h) (omega arith)

    pub ingest-Moved :
        (s : State J M W)
        → Moved
            ((s.ingested ≡ []) × (messages.contents s.incoming ≡ []))
            s
            (ingest json floats messages works routes s)
    unfolding ingest
    ingest-Moved s = elim (List-cases s.ingested) [
      | inl e ↦ elim (Option-cases (messages.try_pop s.incoming)) [
        | inl h ↦
            let none_left = mlaws.try_pop_none s.incoming h in
            inr (
              inr (
                elim (Bool-cases (messages.empty s.incoming)) [
                  | inl b ↦ simp (ingest, e, b)
                  | inr b ↦ simp (ingest, e, b, h)
                ],
                (e, none_left),
              ))
        | inr ((m, q), h) ↦
            let popped = mlaws.try_pop_some s.incoming q m h in
            let some_left : messages.empty s.incoming ≡ false =
              mlaws.empty_iff s.incoming ∙ ap is_empty popped in
            inr (inl (simp (ingest, e, some_left, h) (ingest_pop-steps_left s m q e popped)))
      ]
      | inr (j, rest, e) ↦ inr (inl (simp (ingest, e) (hand_on-steps_left j rest s e)))
    ]

    push_transformed-steps_left :
        (s : State J M W) (m : Message J)
        → s.transformed ≡ some m
        → suc (steps_left (record s { outgoing = messages.push m s.outgoing; transformed = none }))
          ≤ steps_left s
    unfolding steps_left
    push_transformed-steps_left s m e = simp (e, mlaws.contents-push, weigh-concat) (omega arith)

    pop_work-steps_left :
        (s : State J M W) (w : Work J) (q : W) (o : Option (Message J))
        → s.transformed ≡ none
        → transformed_steps o ≤ 2
        → works.contents s.transforming ≡ w ∷ works.contents q
        → suc (steps_left (record s { transforming = q; transformed = o })) ≤ steps_left s
    unfolding steps_left
    pop_work-steps_left s w q o e b h = simp (e, h) (omega arith)

    skip_work-steps_left :
        (s : State J M W) (w : Work J) (q : W)
        → works.contents s.transforming ≡ w ∷ works.contents q
        → suc (steps_left (record s { transforming = q })) ≤ steps_left s
    unfolding steps_left
    skip_work-steps_left s w q h = simp h (omega arith)

    process-Moved :
        (s : State J M W) (w : Work J) (q : W)
        → s.transformed ≡ none
        → works.contents s.transforming ≡ w ∷ works.contents q
        → ((process json floats messages works w (record s { transforming = q })).terminated ≡ true)
          ⊎ (suc (steps_left (process json floats messages works w (record s { transforming = q })))
              ≤ steps_left s)
    unfolding process finish
    process-Moved s w q e h = elim (Bool-cases (is_empty w.stream_transformer_list)) [
      | inl b ↦ inr (simp (process, b) (skip_work-steps_left s w q h))
      | inr b ↦ elim (Result-cases (run_work json floats w)) [
        | inl (m, r) ↦
            inr
              (simp (process, b, r, finish) (pop_work-steps_left s w q (some m) e (omega arith) h))
        | inr (x, r) ↦ inl (simp (process, b, r, finish))
      ]
    ]

    pub transform-Moved :
        (s : State J M W)
        → Moved
            ((s.transformed ≡ none) × (works.contents s.transforming ≡ []))
            s
            (transform json floats messages works s)
    unfolding transform
    transform-Moved s = elim (Option-cases s.transformed) [
      | inr (m, e) ↦ inr (inl (simp (transform, e) (push_transformed-steps_left s m e)))
      | inl e ↦ elim (Option-cases (works.try_pop s.transforming)) [
        | inl h ↦ inr (
            inr (
              elim (Bool-cases (works.empty s.transforming)) [
                | inl b ↦ simp (transform, e, b)
                | inr b ↦ simp (transform, e, b, h)
              ],
              (e, wlaws.try_pop_none s.transforming h),
            ))
        | inr ((w, q), h) ↦
            let work_popped = wlaws.try_pop_some s.transforming q w h in
            let some_left : works.empty s.transforming ≡ false =
              wlaws.empty_iff s.transforming ∙ ap is_empty work_popped in
            let taken : transform json floats messages works s
                ≡ process json floats messages works w (record s { transforming = q }) =
              simp (transform, e, some_left, h) in
            rw taken
              (elim (process-Moved s w q e work_popped) [ inl a ↦ inl a | inr a ↦ inr (inl a) ])
      ]
    ]

    take_outgoing-steps_left :
        (s : State J M W) (m : Message J) (q : M) (ps : List Publication)
        → messages.contents s.outgoing ≡ m ∷ messages.contents q
        → suc (steps_left (record s { outgoing = q; published = ps })) ≤ steps_left s
    unfolding steps_left
    take_outgoing-steps_left s m q ps h = simp h (omega arith)

    hand_over-Moved :
        (taken : Bool) (s : State J M W) (m : Message J) (q : M)
        → messages.contents s.outgoing ≡ m ∷ messages.contents q
        → ((hand_over json floats messages works taken
              (publication_of json floats m)
              (record s { outgoing = q })).terminated
            ≡ true)
          ⊎ (suc (
                steps_left (
                  hand_over json floats messages works taken
                    (publication_of json floats m)
                    (record s { outgoing = q })))
              ≤ steps_left s)
    unfolding hand_over
    hand_over-Moved taken s m q popped = elim (Result-cases (publication_of json floats m)) [
      | inr (x, r) ↦ inl (simp (r, hand_over))
      | inl (p, r) ↦ elim (Bool-cases taken) [
        | inl b ↦
            inr (
              simp (r, b, hand_over)
                (take_outgoing-steps_left s m q (s.published ++ p ∷ []) popped))
        | inr b ↦ inl (simp (r, b, hand_over))
      ]
    ]

    pub publish-Moved :
        (taken : Bool) (s : State J M W)
        → Moved (messages.contents s.outgoing ≡ []) s (publish json floats messages works taken s)
    unfolding publish
    publish-Moved taken s = elim (Option-cases (messages.try_pop s.outgoing)) [
      | inl h ↦ inr (
          inr (
            elim (Bool-cases (messages.empty s.outgoing)) [
              | inl b ↦ simp (publish, b)
              | inr b ↦ simp (publish, b, h)
            ],
            mlaws.try_pop_none s.outgoing h,
          ))
      | inr ((m, q), h) ↦
          let popped = mlaws.try_pop_some s.outgoing q m h in
          let some_left : messages.empty s.outgoing ≡ false =
            mlaws.empty_iff s.outgoing ∙ ap is_empty popped in
          let step : publish json floats messages works taken s
              ≡ hand_over json floats messages works taken (publication_of json floats m)
                  (record s { outgoing = q }) =
            simp (publish, some_left, h) in
          rw step
            (elim (hand_over-Moved taken s m q popped) [ inl a ↦ inl a | inr a ↦ inr (inl a) ])
    ]
