-- ===== src/Json/Members.antt =====
-- The members of an object after `set` and `erase`.
use mqttraffic_warden.Common.{◌≡◌, true, none, some, Text, str_eq, if◌then◌else◌, ok}
use mqttraffic_warden.Json.{JsonOps, JsonLaws, member}

module _ {J F D : Type 0} (json : JsonOps J F D) (laws : JsonLaws json) where
  -- `p` is `o` with the value at `k`, and without the key `gone` if `drops`.
  abbrev pub Assigned : J → Text → J → J → Type 0
  Assigned o k v p =
      (json.is_object p ≡ true)
      × ((i : Text) → member json p i ≡ (if str_eq k i then some v else member json o i))

  abbrev pub Erased : J → Text → J → Type 0
  Erased o k p =
      (json.is_object p ≡ true)
      × ((i : Text) → member json p i ≡ (if str_eq k i then none else member json o i))

  pub set-Assigned :
      (o v p : J) (k : Text) → json.is_object o ≡ true → json.set o k v ≡ ok p → Assigned o k v p
  set-Assigned o v p k h e =
      let (q, f, obj, mem) = laws.set_object o v k h in
      let same : q ≡ p = cc in rw (← same) (obj, mem)

  pub erase-Erased :
      (o p : J) (k : Text) → json.is_object o ≡ true → json.erase o k ≡ ok p → Erased o k p
  erase-Erased o p k h e =
      let (q, f, obj, mem) = laws.erase_object o k h in
      let same : q ≡ p = cc in rw (← same) (obj, mem)
