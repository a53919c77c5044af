-- ===== src/Warden/Topics.antt =====
-- `is_valid_topic` (src/traffic_warden.cpp).
pub mod Laws
use mqttraffic_warden.Common.{
  ℕ, Bool, true, false, not, ◌&&◌, ◌||◌, List, [], ◌∷◌, Text, str_eq, ◌==◌, if◌then◌else◌,
}
use mqttraffic_warden.Topic.{slash}

-- `front()` and `back()` of a text that is not empty.
abbrev pub front : ℕ → Text → ℕ
front c s = c

abbrev pub back : ℕ → Text → ℕ
back c [] = c
back c (d ∷ s) = back d s

unfoldable pub is_valid_topic : Text → Bool
is_valid_topic [] = false
is_valid_topic (c ∷ s) =
    if not (str_eq (c ∷ s) slash) && (front c s == b'/' || back c s == b'/') then false else true
