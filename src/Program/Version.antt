-- ===== src/Program/Version.antt =====
-- The text of the version, and what it says.
use mqttraffic_warden.Common.{
  ℕ, zero, suc, ◌+◌, ◌*◌, ◌/◌, ◌%◌, ◌<◌, ◌≡◌, ◌≢◌, ap, ◌∙◌, inl, inr, true, some, [], ◌∷◌, ◌++◌,
  Text, codes, ltb, All, All-append, All-map, append_assoc, Bool-cases, arith,
}
use mqttraffic_warden.Strings.{split_string, join_strings}
use mqttraffic_warden.Strings.Fields.{Lacks}
use mqttraffic_warden.Strings.RoundTrip.{split-join}
use mqttraffic_warden.Numbers.{read_digits, digit_value, is_digit}
use mqttraffic_warden.Program.{digits, to_string, version_str}

read_digits-concat :
    (acc n : ℕ) (s : Text)
    → All (λ c. is_digit 10 c ≡ true) s
    → n < 10
    → read_digits 10 acc (s ++ (b'0' + n) ∷ []) ≡ read_digits 10 acc s * 10 + n
unfolding read_digits
read_digits-concat acc n [] h l = ground arith
read_digits-concat acc n (c ∷ s) (h, hs) l =
    simp (h, read_digits-concat (acc * 10 + digit_value c) n s hs l)

digit_of : (n : ℕ) → n < 10 → is_digit 10 (b'0' + n) ≡ true
digit_of n l = ground arith

digit_no_dot : (c : ℕ) → is_digit 10 c ≡ true → c ≢ b'.'
digit_no_dot c h = λ e. cc (rw e at h)

digits-digits : (fuel n : ℕ) → All (λ c. is_digit 10 c ≡ true) (digits fuel n)
unfolding digits
digits-digits zero n = tt
digits-digits (suc fuel) n = elim (Bool-cases (ltb n 10)) [
  | inl b ↦ rw b (digit_of n (ground arith), tt)
  | inr b ↦ rw b (
      All-append _ (digits fuel (n / 10)) _ (digits-digits fuel (n / 10))
        (digit_of (n % 10) (omega arith), tt))
]

read_digits-digits : (fuel n : ℕ) → n < fuel → read_digits 10 0 (digits fuel n) ≡ n
unfolding digits
read_digits-digits zero n h = absurd (omega arith)
read_digits-digits (suc fuel) n h = elim (Bool-cases (ltb n 10)) [
  | inl b ↦ rw b (read_digits-concat 0 n [] tt (ground arith) ∙ unfold read_digits in omega arith)
  | inr b ↦ rw b (
      read_digits-concat 0 (n % 10) (digits fuel (n / 10)) (digits-digits fuel (n / 10))
        (omega arith)
      ∙ omega (arith, read_digits-digits fuel (n / 10) (ground arith)))
]

-- `std::to_string` of a number spells it.
pub read_digits-to_string : (n : ℕ) → read_digits 10 0 (to_string n) ≡ n
unfolding to_string
read_digits-to_string n = read_digits-digits (suc n) n (omega arith)

to_string-Lacks : (n : ℕ) → Lacks b'.' (to_string n)
unfolding to_string
to_string-Lacks n =
    All-map _ (λ c. c ≢ b'.') (digits (suc n) n) digit_no_dot (digits-digits (suc n) n)

version_str-join :
    (a b c : ℕ)
    → version_str a b c ≡ join_strings (to_string a ∷ to_string b ∷ to_string c ∷ []) (codes ".")
unfolding version_str join_strings
version_str-join a b c = simp append_assoc

-- `splitString` at "." gives the texts of the three numbers back.
pub split-version_str :
    (a b c : ℕ)
    → split_string (version_str a b c) (codes ".")
      ≡ some (to_string a ∷ to_string b ∷ to_string c ∷ [])
split-version_str a b c =
    ap (λ s. split_string s (codes ".")) (version_str-join a b c)
    ∙ split-join b'.' (to_string a ∷ to_string b ∷ to_string c ∷ []) (λ e. cc) (λ e. cc)
        (to_string-Lacks a, (to_string-Lacks b, (to_string-Lacks c, tt)))
