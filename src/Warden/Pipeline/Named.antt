-- ===== src/Warden/Pipeline/Named.antt =====
-- What every publication has: a topic that is not empty, and the QoS and the flag that `publish` gives.
use mqttraffic_warden.Common.{
  ◌≡◌, ◌≢◌, refl, inl, inr, Bool, true, false, not, ◌&&◌, some, List, [], ◌∷◌, map, Text, is_empty,
  ◌==◌, if◌then◌else◌, All, All-append, All-map, All-flat_map, All-left, Bool-cases, Option-cases,
  Result-cases, arith, failures, failures_of_All, All-of_failures,
}
use mqttraffic_warden.Json.{JsonOps, FloatOps}
use mqttraffic_warden.Queue.{QueueOps, QueueLaws}
use mqttraffic_warden.Warden.Routes.{RouteProperties, RouteConfigurations, find_route}
use mqttraffic_warden.Warden.Pipeline.{
  State, Message, Work, Job, to_transform, to_publish, Publication, run_work, publication_of,
  job_of, jobs_of,
}
use mqttraffic_warden.Warden.Pipeline.Schedule.{Event, run, deliveries}
use mqttraffic_warden.Warden.Pipeline.Owed.{of_message, of_work, of_job, expected, owed}
use mqttraffic_warden.Warden.Pipeline.Outcomes.{run_work-topic}
use mqttraffic_warden.Warden.Pipeline.Conservation.{owed-run}
use mqttraffic_warden.Warden.Pipeline.Alive.{run_ended}
use mqttraffic_warden.Warden.Pipeline.Ended.{alive_run}
use mathlib.Core.List.{flat_map}

abbrev pub IsNamed : Publication → Type 0
IsNamed p = (p.topic ≢ []) × (p.qos ≡ 2) × (p.retained ≡ false)

abbrev named : Publication → Bool
named p = not (is_empty p.topic) && (p.qos == 2 && not p.retained)

named-IsNamed : (p : Publication) → IsNamed p → named p ≡ true
named-IsNamed p h = ground arith

IsNamed-of_named : (p : Publication) → named p ≡ true → IsNamed p
IsNamed-of_named p h = ground arith

abbrev HasTopic : {J : Type 0} → Job J → Type 0
HasTopic (to_transform w) = w.output_topic ≢ []
HasTopic (to_publish m) = m.0 ≢ []

-- Each route that is found has an output topic.
abbrev pub AllTopics : RouteConfigurations → Type 0
AllTopics routes =
    (topic : Text) (rs : List RouteProperties)
    → find_route topic routes ≡ some rs
    → All (λ r. r.output_topic ≢ []) rs

module _ {J : Type 0} where
  job_of-HasTopic :
      (m : Message J) (r : RouteProperties) → r.output_topic ≢ [] → HasTopic (job_of m r)
  unfolding job_of
  job_of-HasTopic m r h = elim (Bool-cases (not (is_empty r.stream_transformers))) [
    | inl b ↦ rw b (h)
    | inr b ↦ rw b (h)
  ]

  map-HasTopic :
      (m : Message J) (rs : List RouteProperties)
      → All (λ r. r.output_topic ≢ []) rs
      → All HasTopic (map (job_of m) rs)
  map-HasTopic m [] h = tt
  map-HasTopic m (r ∷ rs) (h, hs) = (job_of-HasTopic m r h, map-HasTopic m rs hs)

  jobs_of-HasTopic :
      (routes : RouteConfigurations) (m : Message J)
      → AllTopics routes
      → All HasTopic (jobs_of routes m)
  unfolding jobs_of
  jobs_of-HasTopic routes m h = elim (Option-cases (find_route m.0 routes)) [
    | inl e ↦ rw (jobs_of, e) tt
    | inr (rs, e) ↦ rw (jobs_of, e) (map-HasTopic m rs (h m.0 rs e))
  ]

module _ {J F D : Type 0} (json : JsonOps J F D) (floats : FloatOps F D)
    (routes : RouteConfigurations) where
  of_message-IsNamed : (m : Message J) → m.0 ≢ [] → All IsNamed (of_message json floats routes m)
  unfolding of_message publication_of
  of_message-IsNamed m h = elim (Result-cases (json.dump m.1)) [
    | inl (text, e) ↦ simp (of_message, publication_of, e) ((h, refl, refl), tt)
    | inr (x, e) ↦ simp (of_message, publication_of, e) tt
  ]

  of_work-IsNamed : (w : Work J) → w.output_topic ≢ [] → All IsNamed (of_work json floats routes w)
  unfolding of_work
  of_work-IsNamed w h = elim (Bool-cases (is_empty w.stream_transformer_list)) [
    | inl b ↦ simp (of_work, b) tt
    | inr b ↦ elim (Result-cases (run_work json floats w)) [
      | inl (m, e) ↦
          simp (of_work, b, e) (of_message-IsNamed m (run_work-topic json floats w m.0 m.1 h e))
      | inr (x, e) ↦ simp (of_work, b, e) tt
    ]
  ]

  of_job-IsNamed : (j : Job J) → HasTopic j → All IsNamed (of_job json floats routes j)
  unfolding of_job
  of_job-IsNamed (to_transform w) h = of_work-IsNamed w h
  of_job-IsNamed (to_publish m) h = of_message-IsNamed m h

  expected-IsNamed :
      AllTopics routes → (m : Message J) → All IsNamed (expected json floats routes m)
  unfolding expected
  expected-IsNamed h m =
      All-flat_map HasTopic IsNamed (of_job json floats routes) (jobs_of routes m) of_job-IsNamed
        (jobs_of-HasTopic routes m h)

module _ {J F D M W : Type 0} (json : JsonOps J F D) (floats : FloatOps F D)
    (routes : RouteConfigurations) (messages : QueueOps (Message J) M) (works : QueueOps (Work J) W)
    (mlaws : QueueLaws messages) (wlaws : QueueLaws works) where
  All-expected :
      AllTopics routes
      → (ms : List (Message J)) → All IsNamed (flat_map (expected json floats routes) ms)
  unfolding flat_map
  All-expected h [] = tt
  All-expected h (m ∷ ms) =
      All-append IsNamed (expected json floats routes m) _ (expected-IsNamed json floats routes h m)
        (All-expected h ms)

  -- A list of publications without a failure of the test.
  named-failures : (ps : List Publication) → All IsNamed ps → failures named ps ≡ 0
  named-failures ps h =
      failures_of_All named ps (All-map IsNamed (λ p. named p ≡ true) ps named-IsNamed h)

  IsNamed-failures : (ps : List Publication) → failures named ps ≡ 0 → All IsNamed ps
  IsNamed-failures ps h =
      All-map (λ p. named p ≡ true) IsNamed ps IsNamed-of_named (All-of_failures named ps h)

  -- A run that no exception ends.
  alive-IsNamed :
      (es : List Event) (s : State J M W)
      → AllTopics routes
      → All IsNamed (owed json floats routes messages works s)
      → (run json floats messages works routes es s).terminated ≡ false
      → All IsNamed (run json floats messages works routes es s).published
  unfolding owed
  alive-IsNamed es s topics h alive =
      let total =
        owed-run json floats routes messages works mlaws wlaws (λ p. if named p then 0 else 1) es s
          alive in
      All-left IsNamed (run json floats messages works routes es s).published _ (
        IsNamed-failures
          (owed json floats routes messages works (run json floats messages works routes es s))
          (omega (
            arith,
            total,
            named-failures (owed json floats routes messages works s) h,
            named-failures (flat_map (expected json floats routes) (deliveries json es))
                (All-expected topics (deliveries json es)),
          )))

  -- Any run.
  pub run-IsNamed :
      (es : List Event) (s : State J M W)
      → AllTopics routes
      → All IsNamed (owed json floats routes messages works s)
      → All IsNamed (run json floats messages works routes es s).published
  unfolding owed
  run-IsNamed es s topics h = elim (Bool-cases s.terminated) [
    | inl ended ↦
        rw (run_ended json floats messages works routes es s ended)
          (All-left IsNamed s.published _ h)
    | inr alive ↦
        let r = alive_run json floats messages works routes es s alive in
        rw (r.same_published) (alive-IsNamed r.events s topics h r.alive)
  ]
