-- ===== src/Warden/Pipeline/Owed.antt =====
-- What the messages under way will lead to, thread by thread.
use mqttraffic_warden.Common.{
  ℕ, ◌+◌, ◌≡◌, Bool, true, false, Option, none, some, List, [], ◌∷◌, ◌++◌, append-nil,
  if◌then◌else◌, is_empty, Result, ok, throw, ◌>>=◌, arith, Bool-cases, Option-cases, List-cases,
  Result-cases, inl, inr, weigh, weigh-append, weigh-concat, weigh-flat_map,
}
use mqttraffic_warden.Json.{JsonOps, FloatOps}
use mqttraffic_warden.Queue.{QueueOps, QueueLaws}
use mqttraffic_warden.Warden.Routes.{RouteConfigurations}
use mqttraffic_warden.Warden.Pipeline.{
  State, Message, Work, Job, to_transform, to_publish, Publication, run_work, publication_of,
  jobs_of, hand_on, ingest, finish, process, transform, hand_over, publish,
}
use mathlib.Core.List.{flat_map}

abbrev or_nothing : {A : Type 0} → Result (List A) → List A
or_nothing (ok xs) = xs
or_nothing (throw e) = []

module _ {J F D : Type 0} (json : JsonOps J F D) (floats : FloatOps F D)
    (routes : RouteConfigurations) where
  -- The publications that a message, a tuple and a job lead to: none where an exception ends the process.
  unfoldable pub of_message : Message J → List Publication
  of_message m = or_nothing (publication_of json floats m >>= λ p. ok (p ∷ []))

  unfoldable pub of_work : Work J → List Publication
  unfolding of_message
  of_work w =
      if is_empty w.stream_transformer_list
      then []
      else or_nothing (run_work json floats w >>= λ m. ok (of_message m))

  unfoldable pub of_job : Job J → List Publication
  unfolding of_work
  of_job (to_transform w) = of_work w
  of_job (to_publish m) = of_message m

  -- The specification of the gateway: for each route of the message's topic, the publication of its
  -- output.
  unfoldable pub expected : Message J → List Publication
  unfolding of_job
  expected message = flat_map of_job (jobs_of routes message)

  abbrev pub of_transformed : Option (Message J) → List Publication
  of_transformed none = []
  of_transformed (some m) = of_message m

  module _ {M W : Type 0} (messages : QueueOps (Message J) M) (works : QueueOps (Work J) W) where
    -- What has been published, and what the messages under way will lead to.
    unfoldable pub owed : State J M W → List Publication
    owed s =
        s.published
        ++ (flat_map of_message (messages.contents s.outgoing)
            ++ (of_transformed s.transformed
                ++ (flat_map of_work (works.contents s.transforming)
                    ++ (flat_map of_job s.ingested
                        ++ flat_map expected (messages.contents s.incoming)))))

    -- No message is in a queue, and no thread holds one.
    pub record IsIdle (s : State J M W) : Type 0 where
      pub no_incoming : messages.contents s.incoming ≡ []
      pub no_ingested : s.ingested ≡ []
      pub no_transforming : works.contents s.transforming ≡ []
      pub no_transformed : s.transformed ≡ none
      pub no_outgoing : messages.contents s.outgoing ≡ []

    -- When no message is under way, only the publications are left.
    pub owed_of_idle : (s : State J M W) → IsIdle s → owed s ≡ s.published
    unfolding owed flat_map
    owed_of_idle s i = simp (
      i.no_incoming, i.no_ingested, i.no_transforming, i.no_transformed, i.no_outgoing, append-nil,
    )

    module _ (mlaws : QueueLaws messages) (wlaws : QueueLaws works) (f : Publication → ℕ) where
      abbrev message_weight : Message J → ℕ
      message_weight m = weigh f (of_message m)

      abbrev work_weight : Work J → ℕ
      work_weight w = weigh f (of_work w)

      abbrev job_weight : Job J → ℕ
      job_weight j = weigh f (of_job j)

      abbrev pub expected_weight : Message J → ℕ
      expected_weight m = weigh f (expected m)

      unfoldable pub total : State J M W → ℕ
      total s =
          weigh f s.published
          + weigh message_weight (messages.contents s.outgoing)
          + weigh f (of_transformed s.transformed)
          + weigh work_weight (works.contents s.transforming)
          + weigh job_weight s.ingested
          + weigh expected_weight (messages.contents s.incoming)

      pub weigh-owed : (s : State J M W) → weigh f (owed s) ≡ total s
      unfolding owed total
      weigh-owed s = simp (weigh-append, weigh-flat_map) (omega arith)

      hand_on-total :
          (j : Job J) (rest : List (Job J)) (s : State J M W)
          → s.ingested ≡ j ∷ rest
          → total (hand_on json floats messages works j rest s) ≡ total s
      unfolding total hand_on of_job
      hand_on-total (to_transform w) rest s e =
          simp (wlaws.contents-push, weigh-concat, e) (omega arith)
      hand_on-total (to_publish m) rest s e =
          simp (mlaws.contents-push, weigh-concat, e) (omega arith)

      ingest_pop-total :
          (s : State J M W) (m : Message J) (q : M)
          → s.ingested ≡ []
          → messages.contents s.incoming ≡ m ∷ messages.contents q
          → total (record s { incoming = q; ingested = jobs_of routes m }) ≡ total s
      unfolding total expected
      ingest_pop-total s m q e h =
          simp (e, h) (omega (arith, weigh-flat_map f of_job (jobs_of routes m)))

      pub ingest-total :
          (s : State J M W) → total (ingest json floats messages works routes s) ≡ total s
      unfolding ingest
      ingest-total s = elim (List-cases s.ingested) [
        | inl e ↦ elim (Bool-cases (messages.empty s.incoming)) [
          | inl b ↦ simp (ingest, e, b)
          | inr b ↦ elim (Option-cases (messages.try_pop s.incoming)) [
            | inl h ↦ simp (ingest, e, b, h)
            | inr ((m, q), h) ↦
                simp (ingest, e, b, h)
                  (ingest_pop-total s m q e (mlaws.try_pop_some s.incoming q m h))
          ]
        ]
        | inr (j, rest, e) ↦ simp (ingest, e) (hand_on-total j rest s e)
      ]

      push_transformed-total :
          (s : State J M W) (m : Message J)
          → s.transformed ≡ some m
          → total (record s { outgoing = messages.push m s.outgoing; transformed = none }) ≡ total s
      unfolding total
      push_transformed-total s m e = simp (e, mlaws.contents-push, weigh-concat) (omega arith)

      skip_work-total :
          (s : State J M W) (w : Work J) (q : W)
          → is_empty w.stream_transformer_list ≡ true
          → works.contents s.transforming ≡ w ∷ works.contents q
          → total (record s { transforming = q }) ≡ total s
      unfolding total of_work
      skip_work-total s w q b h = simp (h, b) (omega arith)

      finish_work-total :
          (s : State J M W) (w : Work J) (q : W) (m : Message J)
          → s.transformed ≡ none
          → is_empty w.stream_transformer_list ≡ false
          → run_work json floats w ≡ ok m
          → works.contents s.transforming ≡ w ∷ works.contents q
          → total (record s { transforming = q; transformed = some m }) ≡ total s
      unfolding total of_work
      finish_work-total s w q m e b r h = simp (e, h, b, r) (omega arith)

      transform_pop-total :
          (s : State J M W) (w : Work J) (q : W)
          → s.transformed ≡ none
          → works.contents s.transforming ≡ w ∷ works.contents q
          → (process json floats messages works w (record s { transforming = q })).terminated
            ≡ false
          → total (process json floats messages works w (record s { transforming = q })) ≡ total s
      unfolding process
      transform_pop-total s w q e h alive = elim (Bool-cases (is_empty w.stream_transformer_list)) [
        | inl b ↦ simp (process, b) (skip_work-total s w q b h)
        | inr b ↦ elim (Result-cases (run_work json floats w)) [
          | inl (m, r) ↦ simp (process, b, r, finish) (finish_work-total s w q m e b r h)
          | inr (x, r) ↦ cc (simp (process, b, r, finish) at alive)
        ]
      ]

      pub transform-total :
          (s : State J M W)
          → (transform json floats messages works s).terminated ≡ false
          → total (transform json floats messages works s) ≡ total s
      unfolding transform
      transform-total s alive = elim (Option-cases s.transformed) [
        | inr (m, e) ↦ simp (transform, e) (push_transformed-total s m e)
        | inl e ↦ elim (Bool-cases (works.empty s.transforming)) [
          | inl b ↦ simp (transform, e, b)
          | inr b ↦ elim (Option-cases (works.try_pop s.transforming)) [
            | inl h ↦ simp (transform, e, b, h)
            | inr ((w, q), h) ↦
                let popped : transform json floats messages works s
                    ≡ process json floats messages works w (record s { transforming = q }) =
                  simp (transform, e, b, h) in
                rw popped (
                  transform_pop-total s w q e (wlaws.try_pop_some s.transforming q w h)
                    (rw popped at alive))
          ]
        ]
      ]

      hand_over-total :
          (taken : Bool) (s : State J M W) (m : Message J) (q : M)
          → messages.contents s.outgoing ≡ m ∷ messages.contents q
          → (hand_over json floats messages works taken
              (publication_of json floats m)
              (record s { outgoing = q })).terminated
            ≡ false
          → total (
              hand_over json floats messages works taken
                (publication_of json floats m)
                (record s { outgoing = q }))
            ≡ total s
      unfolding hand_over total of_message
      hand_over-total taken s m q h alive = elim (Result-cases (publication_of json floats m)) [
        | inr (x, e) ↦ cc (simp (e, hand_over) at alive)
        | inl (p, e) ↦ go taken p e alive
      ]
        where
          go :
              (taken : Bool) (p : Publication)
              → publication_of json floats m ≡ ok p
              → (hand_over json floats messages works taken
                  (publication_of json floats m)
                  (record s { outgoing = q })).terminated
                ≡ false
              → total (
                  hand_over json floats messages works taken
                    (publication_of json floats m)
                    (record s { outgoing = q }))
                ≡ total s
          go true p e alive = simp (e, h, hand_over, weigh-concat) (omega arith)
          go false p e alive = cc (simp (e, hand_over) at alive)

      pub publish-total :
          (taken : Bool) (s : State J M W)
          → (publish json floats messages works taken s).terminated ≡ false
          → total (publish json floats messages works taken s) ≡ total s
      unfolding publish
      publish-total taken s alive = elim (Bool-cases (messages.empty s.outgoing)) [
        | inl b ↦ simp (publish, b)
        | inr b ↦ elim (Option-cases (messages.try_pop s.outgoing)) [
          | inl h ↦ simp (publish, b, h)
          | inr ((m, q), h) ↦
              simp (publish, b, h)
                (hand_over-total taken s m q (mlaws.try_pop_some s.outgoing q m h)
                  (simp (publish, b, h) at alive))
        ]
      ]
