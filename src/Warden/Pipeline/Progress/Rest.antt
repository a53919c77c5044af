-- ===== src/Warden/Pipeline/Progress/Rest.antt =====
-- No step is left exactly if nothing is under way.
use mqttraffic_warden.Common.{weigh, ℕ, ◌≤◌, ◌≡◌, refl, Option, none, some, List, [], ◌∷◌, arith}
use mqttraffic_warden.Json.{JsonOps, FloatOps}
use mqttraffic_warden.Queue.{QueueOps, QueueLaws}
use mqttraffic_warden.Warden.Routes.{RouteConfigurations}
use mqttraffic_warden.Warden.Pipeline.{State, Message, Work, Job, to_transform, to_publish}
use mqttraffic_warden.Warden.Pipeline.Owed.{IsIdle}
use mqttraffic_warden.Warden.Pipeline.Progress.{
  job_steps, transformed_steps, message_steps, steps_left,
}

weigh_zero : {A : Type 0} (f : A → ℕ) (xs : List A) → ((a : A) → 1 ≤ f a) → weigh f xs ≡ 0 → xs ≡ []
weigh_zero f [] h e = refl
weigh_zero f (x ∷ xs) h e = absurd (omega (arith, h x))

module _ {J F D M W : Type 0} (json : JsonOps J F D) (floats : FloatOps F D)
    (messages : QueueOps (Message J) M) (works : QueueOps (Work J) W) (routes : RouteConfigurations)
    (mlaws : QueueLaws messages) (wlaws : QueueLaws works) where
  abbrev pub NothingToIngest : State J M W → Type 0
  NothingToIngest s = (s.ingested ≡ []) × (messages.contents s.incoming ≡ [])

  abbrev pub NothingToTransform : State J M W → Type 0
  NothingToTransform s = (s.transformed ≡ none) × (works.contents s.transforming ≡ [])

  abbrev pub NothingToPublish : State J M W → Type 0
  NothingToPublish s = messages.contents s.outgoing ≡ []

  pub idle-steps_left :
      (s : State J M W)
      → (NothingToIngest s × NothingToTransform s) × NothingToPublish s
      → steps_left json floats messages works routes s ≡ 0
  unfolding steps_left
  idle-steps_left s (((i, m), (t, w)), o) = simp (i, m, t, w, o)

  job_steps_bound : (j : Job J) → 1 ≤ job_steps j
  job_steps_bound (to_transform w) = omega arith
  job_steps_bound (to_publish m) = omega arith

  no_outcome : (o : Option (Message J)) → transformed_steps o ≡ 0 → o ≡ none
  no_outcome none h = refl
  no_outcome (some m) h = absurd (omega (arith, h))

  pub steps_left-IsIdle :
      (s : State J M W)
      → steps_left json floats messages works routes s ≡ 0
      → IsIdle json floats routes messages works s
  unfolding steps_left
  steps_left-IsIdle s h = record {
    no_incoming =
        weigh_zero (message_steps json floats messages works routes) (messages.contents s.incoming)
          (λ m. omega arith) (omega (arith, h));
    no_ingested = weigh_zero job_steps s.ingested job_steps_bound (omega (arith, h));
    no_transforming =
        weigh_zero (λ w. 3) (works.contents s.transforming) (λ w. omega arith) (omega (arith, h));
    no_transformed = no_outcome s.transformed (omega (arith, h));
    no_outgoing =
        weigh_zero (λ m. 1) (messages.contents s.outgoing) (λ m. omega arith) (omega (arith, h));
  }
