-- ===== src/Address/Parts.antt =====
-- The parts of an address: numbers below 256 and groups of hexadecimal digits.
use mqttraffic_warden.Common.{
  ℕ, zero, suc, ◌+◌, ◌-◌, ◌*◌, ◌/◌, ◌%◌, ◌≤◌, ◌<◌, ◌==◌, ◌≡◌, ◌↔◌, refl, sym, ◌∙◌, inl, inr, Bool,
  true, ◌&&◌, ◌||◌, [], ◌∷◌, ◌++◌, Text, leb, ltb, length, All, if◌then◌else◌, Bool-cases, arith,
}
use mathlib.Core.Path.{subst}
use mqttraffic_warden.Address.{one_to, digit, octet, hex_digit, regex_match}
use mqttraffic_warden.Address.Language.{In, regex_match_iff}

-- The decimal digits of a number below 1000, with no zero in front.
abbrev pub decimal_text : ℕ → Text
decimal_text n =
    if ltb n 10
    then (b'0' + n) ∷ []
    else if ltb n 100
    then (b'0' + n / 10) ∷ (b'0' + n % 10) ∷ []
    else (b'0' + n / 100) ∷ (b'0' + n / 10 % 10) ∷ (b'0' + n % 10) ∷ []

abbrev pub IsOctet : Text → Type 0
IsOctet p = (n : ℕ) × (n < 256) × (p ≡ decimal_text n)

abbrev pub is_hex : ℕ → Bool
is_hex c = leb b'0' c && leb c b'9' || (leb b'a' c && leb c b'f' || leb b'A' c && leb c b'F')

-- One to four hexadecimal digits.
abbrev pub IsHexGroup : Text → Type 0
IsHexGroup p = (1 ≤ length p) × (length p ≤ 4) × All (λ c. is_hex c ≡ true) p

-- Every number below 256 is checked by evaluation.
all_octets : ℕ → Bool
all_octets zero = true
all_octets (suc n) = regex_match (decimal_text n) octet && all_octets n

all_octets_sound :
    (k n : ℕ) → all_octets k ≡ true → n < k → regex_match (decimal_text n) octet ≡ true
unfolding all_octets
all_octets_sound zero n h l = absurd (omega arith)
all_octets_sound (suc k) n h l = elim (Bool-cases (n == k)) [
  | inl e ↦ let same : n ≡ k = ground arith in rw same (ground arith)
  | inr e ↦ all_octets_sound k n (ground arith) (ground arith)
]

octets_table : all_octets 256 ≡ true
unfolding all_octets regex_match
octets_table = refl

digit_text : (c : ℕ) (p : Text) → In digit p → (c : ℕ) × (b'0' ≤ c) × (c ≤ b'9') × (p ≡ c ∷ [])
digit_text c p h = h

two_digits : (a b : ℕ) → b'1' ≤ a → a ≤ b'9' → b'0' ≤ b → b ≤ b'9' → IsOctet (a ∷ b ∷ [])
two_digits a b l u l' u' = ((a - b'0') * 10 + (b - b'0'), omega arith, ground arith)

three_digits :
    (a b c : ℕ)
    → b'1' ≤ a
    → a ≤ b'2'
    → b'0' ≤ b
    → b ≤ b'9'
    → b'0' ≤ c
    → c ≤ b'9'
    → (a - b'0') * 100 + (b - b'0') * 10 + (c - b'0') < 256
    → IsOctet (a ∷ b ∷ c ∷ [])
three_digits a b c la ua lb ub lc uc h =
    ((a - b'0') * 100 + (b - b'0') * 10 + (c - b'0'), h, ground arith)

joined_two : (p x y : Text) (a b : ℕ) → p ≡ x ++ y → x ≡ a ∷ [] → y ≡ b ∷ [] → a ∷ b ∷ [] ≡ p
joined_two p x y a b e f g = ground arith

joined_three :
    (p x y z w : Text) (a b c : ℕ)
    → p ≡ x ++ y
    → y ≡ z ++ w
    → x ≡ a ∷ []
    → z ≡ b ∷ []
    → w ≡ c ∷ []
    → a ∷ b ∷ c ∷ [] ≡ p
joined_three p x y z w a b c e f g h k = ground arith

octet_sound : (p : Text) → In octet p → IsOctet p
octet_sound p (inl (a, l, u, e)) = (a - b'0', omega arith, e ∙ ground arith)
octet_sound p (inr (inl (x, y, e, (a, la, ua, ea), (b, lb, ub, eb)))) =
    subst IsOctet (joined_two p x y a b e ea eb) (two_digits a b la ua lb ub)
octet_sound p
      (inr (inr (inl (x, y, e, (a, la, ua, ea), (z, w, f, (b, lb, ub, eb), (c, lc, uc, ec)))))) =
    subst IsOctet (joined_three p x y z w a b c e f ea eb ec)
      (three_digits a b c (omega arith) (omega arith) lb ub lc uc (omega arith))
octet_sound p
      (inr
        (inr (inr (inl (x, y, e, (a, la, ua, ea), (z, w, f, (b, lb, ub, eb), (c, lc, uc, ec))))))) =
    subst IsOctet (joined_three p x y z w a b c e f ea eb ec)
      (three_digits a b c (omega arith) (omega arith) lb (omega arith) lc uc (omega arith))
octet_sound p
      (inr
        (inr (inr (inr (x, y, e, (a, la, ua, ea), (z, w, f, (b, lb, ub, eb), (c, lc, uc, ec))))))) =
    subst IsOctet (joined_three p x y z w a b c e f ea eb ec) (
      three_digits a b c (omega arith) (omega arith) (omega arith) (omega arith) lc (omega arith)
        (omega arith))

pub octet_iff : (p : Text) → In octet p ↔ IsOctet p
octet_iff p = (
  octet_sound p,
  λ (n, l, e).
      subst (In octet) (sym e)
        ((regex_match_iff (decimal_text n) octet).0 (all_octets_sound 256 n octets_table l)),
)

hex_digit_iff : (p : Text) → In hex_digit p ↔ ((c : ℕ) × (is_hex c ≡ true) × (p ≡ c ∷ []))
hex_digit_iff p = (sound p, complete p)
  where
    sound : (p : Text) → In hex_digit p → (c : ℕ) × (is_hex c ≡ true) × (p ≡ c ∷ [])
    sound p (inl (c, l, u, e)) = (c, ground arith, e)
    sound p (inr (inl (c, l, u, e))) = (c, ground arith, e)
    sound p (inr (inr (c, l, u, e))) = (c, ground arith, e)

    complete : (p : Text) → (c : ℕ) × (is_hex c ≡ true) × (p ≡ c ∷ []) → In hex_digit p
    complete p (c, h, e) = elim (Bool-cases (leb b'0' c && leb c b'9')) [
      | inl d ↦ inl (c, ground arith, ground arith, e)
      | inr d ↦ elim (Bool-cases (leb b'a' c && leb c b'f')) [
        | inl l ↦ inr (inl (c, ground arith, ground arith, e))
        | inr l ↦ inr (inr (c, ground arith, ground arith, e))
      ]
    ]

one_hex : (x : Text) → In hex_digit x → (c : ℕ) × (is_hex c ≡ true) × (x ≡ c ∷ [])
one_hex x h = (hex_digit_iff x).0 h

group_sound :
    (n : ℕ) (p : Text)
    → In (one_to n hex_digit) p
    → (1 ≤ length p) × (length p ≤ n) × All (λ c. is_hex c ≡ true) p
group_sound zero p h = absurd h
group_sound (suc n) p (x, y, e, hx, inl nothing) =
    let (c, h, f) = one_hex x hx in
    let only : c ∷ [] ≡ p = ground arith in
    subst (λ t. (1 ≤ length t) × (length t ≤ suc n) × All (λ d. is_hex d ≡ true) t) only
      (omega arith, omega arith, (h, tt))
group_sound (suc n) p (x, y, e, hx, inr more) =
    let (c, h, f) = one_hex x hx in
    let (l, u, all) = group_sound n y more in
    let joined : c ∷ y ≡ p = ground arith in
    subst (λ t. (1 ≤ length t) × (length t ≤ suc n) × All (λ d. is_hex d ≡ true) t) joined
      (omega arith, omega arith, (h, all))

group_complete :
    (n : ℕ) (p : Text)
    → 1 ≤ length p
    → length p ≤ n
    → All (λ c. is_hex c ≡ true) p
    → In (one_to n hex_digit) p
group_complete n [] l u h = absurd (omega arith)
group_complete zero (c ∷ p) l u h = absurd (omega arith)
group_complete (suc n) (c ∷ []) l u (h, _) =
    (c ∷ [], [], refl, (hex_digit_iff (c ∷ [])).1 (c, h, refl), inl refl)
group_complete (suc n) (c ∷ d ∷ p) l u (h, hs) = (
  c ∷ [],
  d ∷ p,
  refl,
  (hex_digit_iff (c ∷ [])).1 (c, h, refl),
  inr (group_complete n (d ∷ p) (omega arith) (omega arith) hs),
)

pub hex_digits_iff : (p : Text) → In (one_to 4 hex_digit) p ↔ IsHexGroup p
hex_digits_iff p = (group_sound 4 p, λ (l, u, h). group_complete 4 p l u h)
