-- ===== src/Strings/Ends.antt =====
-- When the loop of `splitString` ends.
use mqttraffic_warden.Common.{
  ℕ, suc, ◌≡◌, ◌≢◌, ◌⊎◌, ◌↔◌, refl, inl, inr, some, List, [], ◌∷◌, Text, length, arith,
}
use mqttraffic_warden.Strings.{split_loop}
use mqttraffic_warden.Strings.Find.{split_loop-Splits, split_loop-empty_token}

abbrev pub Stops : Text → Text → List Text → Type 0
Stops token s result = (fuel : ℕ) × (ps : List Text) × (split_loop fuel s token result ≡ some ps)

Stops-only : (token s : Text) (result : List Text) → Stops token s result → (token ≢ []) ⊎ (s ≡ [])
Stops-only (t ∷ token) s result h = inl (λ e. cc)
Stops-only [] [] result h = inr refl
Stops-only [] (c ∷ s) result (fuel, ps, e) = absurd (cc (e, split_loop-empty_token fuel c s result))

Stops-if : (token s : Text) (result : List Text) → (token ≢ []) ⊎ (s ≡ []) → Stops token s result
unfolding split_loop
Stops-if token s result (inl t) =
    let sp = split_loop-Splits (suc (length s)) token s result t (omega arith) in
    (suc (length s), _, sp.ends)
Stops-if token [] result (inr e) = (1, result, refl)
Stops-if token (c ∷ s) result (inr e) = absurd cc

-- The loop of splitString ends, with some amount of fuel, exactly if the token is not empty or the text is empty: for
-- an empty token and a text that is not empty, no amount is enough.
pub split_loop-Stops_iff :
    (token s : Text) (result : List Text) → Stops token s result ↔ ((token ≢ []) ⊎ (s ≡ []))
split_loop-Stops_iff token s result = (Stops-only token s result, Stops-if token s result)
