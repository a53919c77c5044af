-- ===== src/Warden/Routes/Wildcards.antt =====
-- Input topics with a wildcard of MQTT.
use mqttraffic_warden.Common.{
  ◌≡◌, ap, ◌∙◌, inl, inr, true, false, ◌||◌, [], ◌∷◌, Text, Bool, ◌==◌, str_eq, str_eq_sound,
  Bool-cases,
}
use mqttraffic_warden.Warden.Routes.{RouteProperties, RouteConfigurations, find_route, add_route}
use mqttraffic_warden.Warden.Routes.Grouping.{find_route-add_route}
use mqttraffic_warden.Warden.Pipeline.{Message, jobs_of}

-- "#" and "+" stand for other topic levels in a subscription, and occur in no topic of a message.
abbrev pub has_wildcard : Text → Bool
has_wildcard [] = false
has_wildcard (c ∷ s) = (c == b'#' || c == b'+') || has_wildcard s

other_topic : (t u : Text) → has_wildcard t ≡ true → has_wildcard u ≡ false → str_eq t u ≡ false
other_topic t u h k = elim (Bool-cases (str_eq t u)) [
  | inl e ↦ cc (ap has_wildcard (str_eq_sound t u e))
  | inr e ↦ e
]

-- A route whose input topic has a wildcard is never taken: to add it to the map changes the jobs of no
-- message, whatever topic without wildcards the message has.
pub wildcard_unused :
    {J : Type 0} (t : Text) (r : RouteProperties) (routes : RouteConfigurations)
    (message : Message J)
    → has_wildcard t ≡ true
    → has_wildcard message.0 ≡ false
    → jobs_of (add_route t r routes) message ≡ jobs_of routes message
unfolding jobs_of
wildcard_unused t r routes message h k =
    let same : find_route message.0 (add_route t r routes) ≡ find_route message.0 routes =
      find_route-add_route t message.0 r routes ∙ rw (other_topic t message.0 h k) in
    rw (same, jobs_of)
