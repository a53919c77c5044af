-- ===== src/Address/Laws.antt =====
-- The addresses that `isValidIp` accepts.
use mqttraffic_warden.Common.{◌≡◌, ◌↔◌, ◌⊎◌, inl, inr, true, Text, Bool-cases}
use mqttraffic_warden.Address.{ipv4, ipv6, octet, hex_digit, one_to, regex_match, is_valid_ip}
use mqttraffic_warden.Address.Language.{In, regex_match_iff}
use mqttraffic_warden.Address.Separated.{IsJoined, separated_iff}
use mqttraffic_warden.Address.Parts.{IsOctet, IsHexGroup, octet_iff, hex_digits_iff}

ipv4_iff : (s : Text) → In ipv4 s ↔ IsJoined IsOctet 4 b'.' s
ipv4_iff s = separated_iff IsOctet 3 octet b'.' s octet_iff

ipv6_iff : (s : Text) → In ipv6 s ↔ IsJoined IsHexGroup 8 b':' s
ipv6_iff s = separated_iff IsHexGroup 7 (one_to 4 hex_digit) b':' s hex_digits_iff

is_valid_ip_or :
    (s : Text)
    → (is_valid_ip s ≡ true) ↔ ((regex_match s ipv4 ≡ true) ⊎ (regex_match s ipv6 ≡ true))
unfolding is_valid_ip
is_valid_ip_or s = elim (Bool-cases (regex_match s ipv4)) [
  | inl a ↦ (λ h. inl a, λ h. rw (a, is_valid_ip))
  | inr a ↦ elim (Bool-cases (regex_match s ipv6)) [
    | inl b ↦ (λ h. inr b, λ h. rw (a, b, is_valid_ip))
    | inr b ↦ (λ h. cc (rw (a, b, is_valid_ip) at h), λ h. elim h [ inl x ↦ cc | inr x ↦ cc ])
  ]
]

-- `isValidIp` accepts exactly two forms of text: four decimal numbers below 256, without leading
-- zeros, joined by "."; and eight groups of one to four hexadecimal digits, joined by ":".
pub is_valid_ip_iff :
    (s : Text) → (is_valid_ip s ≡ true) ↔ (IsJoined IsOctet 4 b'.' s ⊎ IsJoined IsHexGroup 8 b':' s)
is_valid_ip_iff s = (
  λ h. elim ((is_valid_ip_or s).0 h) [
    | inl a ↦ inl ((ipv4_iff s).0 ((regex_match_iff s ipv4).0 a))
    | inr a ↦ inr ((ipv6_iff s).0 ((regex_match_iff s ipv6).0 a))
  ],
  λ h. (is_valid_ip_or s).1 (elim h [
    | inl a ↦ inl ((regex_match_iff s ipv4).1 ((ipv4_iff s).1 a))
    | inr a ↦ inr ((regex_match_iff s ipv6).1 ((ipv6_iff s).1 a))
  ]),
)
