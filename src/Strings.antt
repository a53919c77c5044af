-- ===== src/Strings.antt =====
-- src/utilities.cpp: `splitString` and `joinStrings`.
pub mod Find
pub mod Ends
pub mod Fields
pub mod RoundTrip
use mqttraffic_warden.Common.{
  ℕ, zero, suc, ◌+◌, Bool, true, false, ◌&&◌, Option, none, some, List, [], ◌∷◌, ◌++◌, Text, ◌==◌,
  if◌then◌else◌, is_empty, length, take, drop,
}
use mathlib.Core.Option

-- Whether `s` begins with `token`.
unfoldable pub starts_with : Text → Text → Bool
starts_with [] s = true
starts_with (t ∷ token) [] = false
starts_with (t ∷ token) (c ∷ s) = c == t && starts_with token s

-- `s.find(token)`: the least index at which `token` stands; `none` is `npos`.
unfoldable pub find : Text → Text → Option ℕ
unfolding starts_with
find token [] = if starts_with token [] then some 0 else none
find token (c ∷ s) =
    let later = Option.map suc (find token s) in if starts_with token (c ∷ s) then some 0 else later

abbrev pub push_if_empty : Text → List Text → List Text
push_if_empty rest result = if is_empty rest then result ++ rest ∷ [] else result

-- The `while` loop over `l_string` and `result`; `none` means that the fuel ran out.
unfoldable pub split_loop : ℕ → Text → Text → List Text → Option (List Text)
unfolding find
split_loop zero l_string token result = none
split_loop (suc fuel) [] token result = some result
split_loop (suc fuel) (c ∷ s) token result = elim (find token (c ∷ s)) [
  | none ↦ split_loop fuel [] token (result ++ (c ∷ s) ∷ [])
  | some index ↦
      split_loop fuel (drop (index + length token) (c ∷ s)) token
        (push_if_empty (drop (index + length token) (c ∷ s)) (result ++ take index (c ∷ s) ∷ []))
]

unfoldable pub split_string : Text → Text → Option (List Text)
unfolding split_loop
split_string s token = split_loop (suc (length s)) s token []

-- The loop over the iterator `str`, which stands at the head of the list.
unfoldable pub join_loop : Text → Text → List Text → Text
join_loop token result [] = result
join_loop token result (x ∷ []) = result
join_loop token result (x ∷ y ∷ strs) = join_loop token ((result ++ token) ++ y) (y ∷ strs)

unfoldable pub join_strings : List Text → Text → Text
unfolding join_loop
join_strings [] token = []
join_strings (p ∷ ps) token = join_loop token p (p ∷ ps)
