-- ===== src/Address.antt =====
-- `isValidIp` (src/utilities.cpp): the two regular expressions as data, and `regex_match` for the
-- constructs that they use, by derivatives.
pub mod Language
pub mod Separated
pub mod Parts
pub mod Laws
use mqttraffic_warden.Common.{
  ℕ, zero, suc, Bool, true, false, ◌&&◌, ◌||◌, [], ◌∷◌, Text, codes, leb, if◌then◌else◌, ◌≡◌, refl,
}

pub data Regex : Type 0 where
  none_at_all empty_text : Regex
  -- One byte of a range.
  range : ℕ → ℕ → Regex
  or_else then_by : Regex → Regex → Regex

abbrev pub one : ℕ → Regex
one c = range c c

abbrev pub repeat : ℕ → Regex → Regex
repeat zero r = empty_text
repeat (suc n) r = then_by r (repeat n r)

-- `r{1,n}`
abbrev pub one_to : ℕ → Regex → Regex
one_to zero r = none_at_all
one_to (suc n) r = then_by r (or_else empty_text (one_to n r))

unfoldable pub accepts_empty : Regex → Bool
accepts_empty none_at_all = false
accepts_empty empty_text = true
accepts_empty (range lo hi) = false
accepts_empty (or_else r s) = accepts_empty r || accepts_empty s
accepts_empty (then_by r s) = accepts_empty r && accepts_empty s

-- What may stand behind the byte `c`.
unfoldable pub derive : ℕ → Regex → Regex
unfolding accepts_empty
derive c none_at_all = none_at_all
derive c empty_text = none_at_all
derive c (range lo hi) = if leb lo c && leb c hi then empty_text else none_at_all
derive c (or_else r s) = or_else (derive c r) (derive c s)
derive c (then_by r s) =
    if accepts_empty r
    then or_else (then_by (derive c r) s) (derive c s)
    else then_by (derive c r) s

unfoldable pub regex_match : Text → Regex → Bool
unfolding derive
regex_match [] r = accepts_empty r
regex_match (c ∷ s) r = regex_match s (derive c r)

abbrev pub digit : Regex
digit = range b'0' b'9'

-- [0-9]|[1-9][0-9]|1[0-9][0-9]|2[0-4][0-9]|25[0-5]
abbrev pub octet : Regex
octet = or_else digit (
    or_else (then_by (range b'1' b'9') digit) (
      or_else (then_by (one b'1') (then_by digit digit)) (
        or_else (then_by (one b'2') (then_by (range b'0' b'4') digit))
          (then_by (one b'2') (then_by (one b'5') (range b'0' b'5'))))))

abbrev pub ipv4 : Regex
ipv4 = then_by (repeat 3 (then_by octet (one b'.'))) octet

abbrev pub hex_digit : Regex
hex_digit = or_else digit (or_else (range b'a' b'f') (range b'A' b'F'))

abbrev pub ipv6 : Regex
ipv6 = then_by (repeat 7 (then_by (one_to 4 hex_digit) (one b':'))) (one_to 4 hex_digit)

unfoldable pub is_valid_ip : Text → Bool
unfolding regex_match
is_valid_ip s = if regex_match s ipv4 then true else if regex_match s ipv6 then true else false

tests :
    (is_valid_ip (codes "10.0.2.2") ≡ true)
    × (is_valid_ip (codes "256.1.1.1") ≡ false)
    × (is_valid_ip (codes "01.1.1.1") ≡ false)
    × (is_valid_ip (codes "1:22:333:4444:aA:bB:cC:0") ≡ true)
    × (is_valid_ip (codes "::1") ≡ false)
    × (is_valid_ip (codes "localhost") ≡ false)
unfolding is_valid_ip
tests = (refl, refl, refl, refl, refl, refl)
