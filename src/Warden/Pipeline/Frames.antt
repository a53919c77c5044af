-- ===== src/Warden/Pipeline/Frames.antt =====
-- What the transform thread leaves alone.
use mqttraffic_warden.Common.{
  ◌≡◌, refl, ap, ◌∙◌, inl, inr, Bool-cases, Option-cases, Result-cases, is_empty,
}
use mqttraffic_warden.Json.{JsonOps, FloatOps}
use mqttraffic_warden.Queue.{QueueOps}
use mqttraffic_warden.Warden.Pipeline.{State, Message, Work, finish, process, transform, run_work}

module _ {J F D M W : Type 0} (json : JsonOps J F D) (floats : FloatOps F D)
    (messages : QueueOps (Message J) M) (works : QueueOps (Work J) W) where
  -- The state has the same incoming messages and the same publications.
  pub record SameParts (s s' : State J M W) : Type 0 where
    pub same_incoming : s'.incoming ≡ s.incoming
    pub same_published : s'.published ≡ s.published

  process-SameParts :
      (w : Work J) (s : State J M W) → SameParts s (process json floats messages works w s)
  unfolding process finish
  process-SameParts w s = elim (Bool-cases (is_empty w.stream_transformer_list)) [
    | inl b ↦ simp (process, b) (record { same_incoming = refl; same_published = refl })
    | inr b ↦ elim (Result-cases (run_work json floats w)) [
      | inl (m, e) ↦
          simp (process, b, e, finish) (record { same_incoming = refl; same_published = refl })
      | inr (x, e) ↦
          simp (process, b, e, finish) (record { same_incoming = refl; same_published = refl })
    ]
  ]

  pub transform-SameParts : (s : State J M W) → SameParts s (transform json floats messages works s)
  unfolding transform
  transform-SameParts s = elim (Option-cases s.transformed) [
    | inr (m, e) ↦ simp (transform, e) (record { same_incoming = refl; same_published = refl })
    | inl e ↦ elim (Bool-cases (works.empty s.transforming)) [
      | inl b ↦ simp (transform, e, b) (record { same_incoming = refl; same_published = refl })
      | inr b ↦ elim (Option-cases (works.try_pop s.transforming)) [
        | inl h ↦ simp (transform, e, b, h) (record { same_incoming = refl; same_published = refl })
        | inr ((w, q), h) ↦
            let popped : transform json floats messages works s
                ≡ process json floats messages works w (record s { transforming = q }) =
              simp (transform, e, b, h) in
            let parts = process-SameParts w (record s { transforming = q }) in
            record {
              same_incoming = ap (λ x. x.incoming) popped ∙ parts.same_incoming;
              same_published = ap (λ x. x.published) popped ∙ parts.same_published;
            }
      ]
    ]
  ]
