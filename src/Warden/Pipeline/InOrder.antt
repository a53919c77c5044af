-- ===== src/Warden/Pipeline/InOrder.antt =====
-- What the ingest and transform threads do to the order of the publications, where the routes are all
-- alike.
use mqttraffic_warden.Common.{
  ◌≡◌, refl, sym, ◌∙◌, Bool, true, false, Option, none, some, inl, inr, List, [], ◌∷◌, ◌++◌,
  append_assoc, append-nil, flat_map-append, is_empty, All, ok, Bool-cases, Option-cases,
  List-cases, Result-cases,
}
use mqttraffic_warden.Json.{JsonOps, FloatOps}
use mqttraffic_warden.Queue.{QueueOps, QueueLaws}
use mqttraffic_warden.Warden.Routes.{RouteConfigurations}
use mqttraffic_warden.Warden.Pipeline.{
  State, Message, Work, Job, to_transform, to_publish, Publication, run_work, jobs_of, hand_on,
  ingest, finish, process, transform,
}
use mqttraffic_warden.Warden.Pipeline.Owed.{of_message, of_work, of_job, expected, owed, IsIdle}
use mqttraffic_warden.Warden.Pipeline.Kinds.{IsUniform, OfKind, jobs_of-OfKind}
use mathlib.Core.List.{flat_map}

module _ {J F D M W : Type 0} (json : JsonOps J F D) (floats : FloatOps F D)
    (routes : RouteConfigurations) (messages : QueueOps (Message J) M) (works : QueueOps (Work J) W)
    (mlaws : QueueLaws messages) (wlaws : QueueLaws works) (kind : Bool)
    (uniform : IsUniform kind routes) where
  abbrev go_owed : State J M W → List Publication
  go_owed = owed json floats routes messages works

  -- The jobs under way are of one kind. Without transformers nothing is with the transform thread.
  pub record InOrder (s : State J M W) : Type 0 where
    pub jobs : All (OfKind kind) s.ingested
    pub direct : kind ≡ false → (works.contents s.transforming ≡ []) × (s.transformed ≡ none)

  pub idle-InOrder : (s : State J M W) → IsIdle json floats routes messages works s → InOrder s
  idle-InOrder s i = record {
    jobs = rw (i.no_ingested) tt;
    direct = λ k. (i.no_transforming, i.no_transformed);
  }

  -- The order of what is owed stays, and so does the invariant.
  abbrev pub Keeps : State J M W → State J M W → Type 0
  Keeps s s' = InOrder s' × (go_owed s' ≡ go_owed s)

  -- What is owed when nothing is with the transform thread.
  direct_owed :
      (s : State J M W)
      → works.contents s.transforming ≡ []
      → s.transformed ≡ none
      → go_owed s
        ≡ s.published
          ++ (flat_map (of_message json floats routes) (messages.contents s.outgoing)
              ++ (flat_map (of_job json floats routes) s.ingested
                  ++ flat_map (expected json floats routes) (messages.contents s.incoming)))
  unfolding owed flat_map
  direct_owed s w o = simp (w, o)

  hand_on-Keeps :
      (j : Job J) (rest : List (Job J)) (s : State J M W)
      → s.ingested ≡ j ∷ rest
      → InOrder s
      → Keeps s (hand_on json floats messages works j rest s)
  unfolding hand_on owed flat_map of_job
  hand_on-Keeps (to_transform w) rest s e i =
      let kinds : All (OfKind kind) (to_transform w ∷ rest) = rw e at (i.jobs) in
      (
        record { jobs = kinds.1; direct = λ k. cc (kinds.0) },
        simp (e, wlaws.contents-push, flat_map-append, append_assoc, append-nil, flat_map),
      )
  hand_on-Keeps (to_publish m) rest s e i =
      let kinds : All (OfKind kind) (to_publish m ∷ rest) = rw e at (i.jobs) in
      let (no_work, no_outcome) = i.direct kinds.0 in
      (
        record { jobs = kinds.1; direct = i.direct },
        (direct_owed (record s { outgoing = messages.push m s.outgoing; ingested = rest }) no_work
              no_outcome
            ∙ (simp (
              e, mlaws.contents-push, flat_map-append, append_assoc, append-nil, flat_map, of_job,
            ))
            ∙ sym (direct_owed s no_work no_outcome)),
      )

  pop-Keeps :
      (s : State J M W) (m : Message J) (q : M)
      → s.ingested ≡ []
      → messages.contents s.incoming ≡ m ∷ messages.contents q
      → InOrder s
      → Keeps s (record s { incoming = q; ingested = jobs_of routes m })
  unfolding owed expected flat_map
  pop-Keeps s m q e h i = (
    record { jobs = jobs_of-OfKind kind routes m uniform; direct = i.direct },
    simp (e, h, flat_map, append_assoc),
  )

  pub ingest-Keeps :
      (s : State J M W) → InOrder s → Keeps s (ingest json floats messages works routes s)
  unfolding ingest
  ingest-Keeps s i = elim (List-cases s.ingested) [
    | inl e ↦ elim (Bool-cases (messages.empty s.incoming)) [
      | inl b ↦ simp (ingest, e, b) (i, refl)
      | inr b ↦ elim (Option-cases (messages.try_pop s.incoming)) [
        | inl h ↦ simp (ingest, e, b, h) (i, refl)
        | inr ((m, q), h) ↦
            simp (ingest, e, b, h) (pop-Keeps s m q e (mlaws.try_pop_some s.incoming q m h) i)
      ]
    ]
    | inr (j, rest, e) ↦ simp (ingest, e) (hand_on-Keeps j rest s e i)
  ]

  push_transformed-Keeps :
      (s : State J M W) (m : Message J)
      → s.transformed ≡ some m
      → InOrder s
      → Keeps s (record s { outgoing = messages.push m s.outgoing; transformed = none })
  unfolding owed flat_map
  push_transformed-Keeps s m e i = (
    record { jobs = i.jobs; direct = λ k. ((i.direct k).0, refl) },
    simp (e, mlaws.contents-push, flat_map-append, append_assoc, append-nil, flat_map),
  )

  pop_work-InOrder :
      (s : State J M W) (w : Work J) (q : W) (o : Option (Message J))
      → works.contents s.transforming ≡ w ∷ works.contents q
      → InOrder s
      → InOrder (record s { transforming = q; transformed = o })
  pop_work-InOrder s w q o h i = record { jobs = i.jobs; direct = λ k. cc ((i.direct k).0) }

  skip_work-owed :
      (s : State J M W) (w : Work J) (q : W)
      → is_empty w.stream_transformer_list ≡ true
      → works.contents s.transforming ≡ w ∷ works.contents q
      → go_owed (record s { transforming = q }) ≡ go_owed s
  unfolding owed of_work flat_map
  skip_work-owed s w q b h = simp (h, b, of_work, flat_map)

  finish_work-owed :
      (s : State J M W) (w : Work J) (q : W) (m : Message J)
      → s.transformed ≡ none
      → is_empty w.stream_transformer_list ≡ false
      → run_work json floats w ≡ ok m
      → works.contents s.transforming ≡ w ∷ works.contents q
      → go_owed (record s { transforming = q; transformed = some m }) ≡ go_owed s
  unfolding owed of_work flat_map
  finish_work-owed s w q m e b r h = simp (e, h, b, r, of_work, flat_map, append_assoc)

  process-Keeps :
      (s : State J M W) (w : Work J) (q : W)
      → s.transformed ≡ none
      → works.contents s.transforming ≡ w ∷ works.contents q
      → InOrder s
      → (process json floats messages works w (record s { transforming = q })).terminated ≡ false
      → Keeps s (process json floats messages works w (record s { transforming = q }))
  unfolding process
  process-Keeps s w q e h i alive = elim (Bool-cases (is_empty w.stream_transformer_list)) [
    | inl b ↦ simp (process, b) (pop_work-InOrder s w q s.transformed h i, skip_work-owed s w q b h)
    | inr b ↦ elim (Result-cases (run_work json floats w)) [
      | inl (m, r) ↦
          simp (process, b, r, finish)
            (pop_work-InOrder s w q (some m) h i, finish_work-owed s w q m e b r h)
      | inr (x, r) ↦ cc (simp (process, b, r, finish) at alive)
    ]
  ]

  pub transform-Keeps :
      (s : State J M W)
      → InOrder s
      → (transform json floats messages works s).terminated ≡ false
      → Keeps s (transform json floats messages works s)
  unfolding transform
  transform-Keeps s i alive = elim (Option-cases s.transformed) [
    | inr (m, e) ↦ simp (transform, e) (push_transformed-Keeps s m e i)
    | inl e ↦ elim (Bool-cases (works.empty s.transforming)) [
      | inl b ↦ simp (transform, e, b) (i, refl)
      | inr b ↦ elim (Option-cases (works.try_pop s.transforming)) [
        | inl h ↦ simp (transform, e, b, h) (i, refl)
        | inr ((w, q), h) ↦
            let popped : transform json floats messages works s
                ≡ process json floats messages works w (record s { transforming = q }) =
              simp (transform, e, b, h) in
            rw popped (
              process-Keeps s w q e (wlaws.try_pop_some s.transforming q w h) i
                (rw popped at alive))
      ]
    ]
  ]
