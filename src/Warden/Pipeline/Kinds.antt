-- ===== src/Warden/Pipeline/Kinds.antt =====
-- Routes that are all alike: none has transformers, or each has.
use mqttraffic_warden.Common.{
  ◌≡◌, Bool, true, false, not, some, inl, inr, List, [], ◌∷◌, Text, is_empty, str_eq, All,
  Bool-cases, Option-cases, map,
}
use mqttraffic_warden.Warden.Routes.{RouteProperties, RouteConfigurations, find_route}
use mqttraffic_warden.Warden.Pipeline.{Message, Job, to_transform, to_publish, job_of, jobs_of}

-- `kind` says whether each route has transformers.
abbrev pub IsUniform : Bool → RouteConfigurations → Type 0
IsUniform kind = All (λ entry. All (λ r. not (is_empty r.stream_transformers) ≡ kind) entry.1)

abbrev pub OfKind : {J : Type 0} → Bool → Job J → Type 0
OfKind kind (to_transform w) = kind ≡ true
OfKind kind (to_publish m) = kind ≡ false

found-IsUniform :
    (kind : Bool) (topic : Text) (routes : RouteConfigurations) (rs : List RouteProperties)
    → IsUniform kind routes
    → find_route topic routes ≡ some rs
    → All (λ r. not (is_empty r.stream_transformers) ≡ kind) rs
unfolding find_route
found-IsUniform kind topic [] rs h e = cc
found-IsUniform kind topic ((t, qs) ∷ routes) rs (h, hs) e = elim (Bool-cases (str_eq t topic)) [
  | inl b ↦ let same : qs ≡ rs = cc (simp (b, find_route) at e) in rw (← same) h
  | inr b ↦ found-IsUniform kind topic routes rs hs (simp (b, find_route) at e)
]

module _ {J : Type 0} where
  job_of-OfKind :
      (kind : Bool) (m : Message J) (r : RouteProperties)
      → not (is_empty r.stream_transformers) ≡ kind
      → OfKind kind (job_of m r)
  unfolding job_of
  job_of-OfKind kind m r h = elim (Bool-cases (not (is_empty r.stream_transformers))) [
    | inl b ↦ rw b (cc)
    | inr b ↦ rw b (cc)
  ]

  map-OfKind :
      (kind : Bool) (m : Message J) (rs : List RouteProperties)
      → All (λ r. not (is_empty r.stream_transformers) ≡ kind) rs
      → All (OfKind kind) (map (job_of m) rs)
  map-OfKind kind m [] h = tt
  map-OfKind kind m (r ∷ rs) (h, hs) = (job_of-OfKind kind m r h, map-OfKind kind m rs hs)

  pub jobs_of-OfKind :
      (kind : Bool) (routes : RouteConfigurations) (m : Message J)
      → IsUniform kind routes
      → All (OfKind kind) (jobs_of routes m)
  unfolding jobs_of
  jobs_of-OfKind kind routes m h = elim (Option-cases (find_route m.0 routes)) [
    | inl e ↦ rw (jobs_of, e) tt
    | inr (rs, e) ↦ rw (jobs_of, e) (map-OfKind kind m rs (found-IsUniform kind m.0 routes rs h e))
  ]
