-- ===== src/Warden/Pipeline/Counts.antt =====
-- How many publications a harmless message leads to.
use mqttraffic_warden.Common.{
  ◌≡◌, refl, inl, inr, false, List, [], ◌∷◌, map, length, length-append, is_empty, All, All-append,
  ok-of_is_ok, weigh, arith, Bool-cases, Option-cases, Result-cases,
}
use mqttraffic_warden.Json.{JsonOps, FloatOps}
use mqttraffic_warden.Warden.Routes.{RouteConfigurations, RouteProperties, find_route}
use mqttraffic_warden.Warden.Pipeline.{Message, Work, run_work, publication_of, job_of, jobs_of}
use mqttraffic_warden.Warden.Pipeline.Schedule.{
  Event, arrives, ingests, transforms, publishes, delivery, deliveries,
}
use mqttraffic_warden.Warden.Pipeline.Owed.{of_message, of_work, of_job, expected}
use mqttraffic_warden.Warden.Pipeline.Harmless.{
  Prints, Transforms, Succeeds, AllSucceed, IsHarmless,
}
use mathlib.Core.List.{flat_map}

module _ {J F D : Type 0} (json : JsonOps J F D) (floats : FloatOps F D)
    (routes : RouteConfigurations) where
  one_of_message :
      (m : Message J) → Prints json floats routes m → length (of_message json floats routes m) ≡ 1
  unfolding of_message
  one_of_message m h =
      let (p, e) = ok-of_is_ok (publication_of json floats m) h in rw (of_message, e) refl

  one_of_work :
      (w : Work J)
      → is_empty w.stream_transformer_list ≡ false
      → Transforms json floats routes w
      → length (of_work json floats routes w) ≡ 1
  unfolding of_work
  one_of_work w b h = elim (Result-cases (run_work json floats w)) [
    | inl (m, e) ↦ rw (of_work, b, e) (one_of_message m (rw e at h))
    | inr (x, e) ↦ absurd (ground arith)
  ]

  one_of_job :
      (m : Message J) (r : RouteProperties)
      → Succeeds json floats routes (job_of m r)
      → length (of_job json floats routes (job_of m r)) ≡ 1
  unfolding job_of of_job
  one_of_job m r h = elim (Bool-cases (is_empty r.stream_transformers)) [
    | inl b ↦ rw (job_of, b) (one_of_message (r.output_topic, m.1) (rw (job_of, b) at h))
    | inr b ↦ rw (job_of, b) (one_of_work _ b (rw (job_of, b) at h))
  ]

  one_for_each :
      (m : Message J) (rs : List RouteProperties)
      → All (Succeeds json floats routes) (map (job_of m) rs)
      → length (flat_map (of_job json floats routes) (map (job_of m) rs))
        ≡ length (map (job_of m) rs)
  unfolding flat_map
  one_for_each m [] hs = refl
  one_for_each m (r ∷ rs) (h, hs) = omega (
    arith,
    length-append (of_job json floats routes (job_of m r))
        (flat_map (of_job json floats routes) (map (job_of m) rs)),
    one_of_job m r h,
    one_for_each m rs hs,
  )

  -- A message whose routes all end well leads to one publication for each.
  length-expected :
      (m : Message J)
      → AllSucceed json floats routes m
      → length (expected json floats routes m) ≡ length (jobs_of routes m)
  unfolding expected jobs_of flat_map
  length-expected m h = elim (Option-cases (find_route m.0 routes)) [
    | inl e ↦ rw (expected, jobs_of, e) refl
    | inr (rs, e) ↦ rw (expected, jobs_of, e) (one_for_each m rs (rw (jobs_of, e) at h))
  ]

  pub length-flat_map-expected :
      (ms : List (Message J))
      → All (AllSucceed json floats routes) ms
      → length (flat_map (expected json floats routes) ms)
        ≡ weigh (λ m. length (jobs_of routes m)) ms
  unfolding flat_map
  length-flat_map-expected [] hs = refl
  length-flat_map-expected (m ∷ ms) (h, hs) = omega (
    arith,
    length-append (expected json floats routes m) (flat_map (expected json floats routes) ms),
    length-expected m h,
    length-flat_map-expected ms hs,
  )

  delivery-AllSucceed :
      (e : Event)
      → IsHarmless json floats routes e
      → All (AllSucceed json floats routes) (delivery json e)
  delivery-AllSucceed (arrives topic text) (payload, e, h) = rw e (h, tt)
  delivery-AllSucceed ingests h = tt
  delivery-AllSucceed transforms h = tt
  delivery-AllSucceed (publishes taken) h = tt

  pub deliveries-AllSucceed :
      (es : List Event)
      → All (IsHarmless json floats routes) es
      → All (AllSucceed json floats routes) (deliveries json es)
  unfolding deliveries
  deliveries-AllSucceed [] hs = tt
  deliveries-AllSucceed (e ∷ es) (h, hs) =
      All-append (AllSucceed json floats routes) (delivery json e) (deliveries json es)
        (delivery-AllSucceed e h) (deliveries-AllSucceed es hs)
