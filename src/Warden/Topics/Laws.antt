-- ===== src/Warden/Topics/Laws.antt =====
-- Which topics `is_valid_topic` accepts.
use mqttraffic_warden.Common.{◌≡◌, ◌≢◌, ◌↔◌, ◌⊎◌, true, [], ◌∷◌, Text, str_eq_iff, arith}
use mqttraffic_warden.Topic.{slash}
use mqttraffic_warden.Warden.Topics.{back, is_valid_topic}

-- "MQTT topic must contain at least one character", and it "should not start or terminate with '/'
-- (character '/' alone is allowed though)".
abbrev pub IsTopic : Text → Type 0
IsTopic [] = ⊥
IsTopic (c ∷ s) = (c ∷ s ≡ slash) ⊎ ((c ≢ b'/') × (back c s ≢ b'/'))

-- `is_valid_topic` accepts exactly the topics that are not empty and that are "/" or neither start nor
-- end with "/".
pub is_valid_topic_iff : (s : Text) → (is_valid_topic s ≡ true) ↔ IsTopic s
unfolding is_valid_topic
is_valid_topic_iff [] = (λ h. cc, λ h. absurd h)
is_valid_topic_iff (c ∷ s) =
    (λ h. ground (arith, str_eq_iff (c ∷ s) slash), λ h. ground (arith, str_eq_iff (c ∷ s) slash))
