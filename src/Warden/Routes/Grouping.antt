-- ===== src/Warden/Routes/Grouping.antt =====
-- The map of `retrieve_routes` against the list of all routes of the file.
use mqttraffic_warden.Common.{
  true, Option, none, some, List, [], ◌∷◌, ◌++◌, Text, str_eq, str_eq_iff, str_eq_sound,
  if◌then◌else◌, Result, ok, throw, ◌>>=◌, >>=-assoc, Result-cases, ◌≡◌, refl, sym, ap, ◌∙◌, arith,
  append_assoc, append-nil, Bool-cases, inl, inr,
}
use mqttraffic_warden.Json.{JsonOps, JsonLaws}
use mqttraffic_warden.Warden.Routes.{
  RouteProperties, RouteConfigurations, find_route, add_route, retrieve_route, retrieve_loop,
  retrieve_routes,
}

-- The routes of an input topic among those of the file, in their order.
abbrev pub routes_for : Text → List (Text × RouteProperties) → List RouteProperties
routes_for topic [] = []
routes_for topic ((t, r) ∷ ps) =
    if str_eq t topic then r ∷ routes_for topic ps else routes_for topic ps

abbrev pub or_empty : Option (List RouteProperties) → List RouteProperties
or_empty none = []
or_empty (some rs) = rs

abbrev pub nonempty_or_none : List RouteProperties → Option (List RouteProperties)
nonempty_or_none [] = none
nonempty_or_none (r ∷ rs) = some (r ∷ rs)

pub find_route-add_route :
    (t topic : Text) (r : RouteProperties) (m : RouteConfigurations)
    → find_route topic (add_route t r m)
      ≡ (if str_eq t topic then some (or_empty (find_route t m) ++ r ∷ []) else find_route topic m)
unfolding find_route add_route
find_route-add_route t topic r [] = refl
find_route-add_route t topic r ((u, rs) ∷ m) = ground (
  arith,
  str_eq_iff u t,
  str_eq_iff u topic,
  str_eq_iff t topic,
  find_route-add_route t topic r m,
)

abbrev add_all : List (Text × RouteProperties) → RouteConfigurations → RouteConfigurations
add_all [] m = m
add_all ((t, r) ∷ ps) m = add_all ps (add_route t r m)

-- What is found for a topic once the routes `rs` of that topic have been added.
abbrev extended :
    Option (List RouteProperties) → List RouteProperties → Option (List RouteProperties)
extended none rs = nonempty_or_none rs
extended (some qs) rs = some (qs ++ rs)

extended-nil : (o : Option (List RouteProperties)) → o ≡ extended o []
extended-nil none = refl
extended-nil (some qs) = ap some (sym (append-nil qs))

extended-cons :
    (o : Option (List RouteProperties)) (r : RouteProperties) (rs : List RouteProperties)
    → extended (some (or_empty o ++ r ∷ [])) rs ≡ extended o (r ∷ rs)
extended-cons none r rs = refl
extended-cons (some qs) r rs = ap some (append_assoc qs (r ∷ []) rs)

extended-add :
    (topic t : Text) (r : RouteProperties) (ps : List (Text × RouteProperties))
    (m : RouteConfigurations)
    → extended
        (if str_eq t topic then some (or_empty (find_route t m) ++ r ∷ []) else find_route topic m)
        (routes_for topic ps)
      ≡ extended (find_route topic m) (routes_for topic ((t, r) ∷ ps))
extended-add topic t r ps m = elim (Bool-cases (str_eq t topic)) [
  | inl e ↦
      rw (e, str_eq_sound t topic e) (extended-cons (find_route topic m) r (routes_for topic ps))
  | inr e ↦ rw e
]

find_route-add_all :
    (topic : Text) (ps : List (Text × RouteProperties)) (m : RouteConfigurations)
    → find_route topic (add_all ps m) ≡ extended (find_route topic m) (routes_for topic ps)
find_route-add_all topic [] m = extended-nil (find_route topic m)
find_route-add_all topic ((t, r) ∷ ps) m =
    find_route-add_all topic ps (add_route t r m)
    ∙ rw (find_route-add_route t topic r m) (extended-add topic t r ps m)

-- A map that groups routes: under each topic its routes in the order of the list, and no entry for a
-- topic without a route. Where the list is an exception, the map is the same exception.
unfoldable pub Groups : Result (List (Text × RouteProperties)) → Result RouteConfigurations → Type 0
Groups (ok ps) (ok m) = (topic : Text) → find_route topic m ≡ nonempty_or_none (routes_for topic ps)
Groups (throw e) (throw f) = e ≡ f
Groups (ok ps) (throw f) = ⊥
Groups (throw e) (ok m) = ⊥

Groups-of_add_all :
    (r : Result (List (Text × RouteProperties))) → Groups r (r >>= λ ps. ok (add_all ps []))
unfolding Groups
Groups-of_add_all (ok ps) = λ topic. find_route-add_all topic ps [] ∙ (unfold find_route in refl)
Groups-of_add_all (throw e) = refl

module _ {J F D : Type 0} (json : JsonOps J F D) where
  -- Every route of the file, with its input topic.
  unfoldable pub all_routes : List J → Result (List (Text × RouteProperties))
  all_routes [] = ok []
  all_routes (j ∷ js) = do r ← retrieve_route json j; rs ← all_routes js; ok (r ∷ rs)

  retrieve_loop-all_routes :
      (js : List J) (m : RouteConfigurations)
      → retrieve_loop json js m ≡ (all_routes js >>= λ ps. ok (add_all ps m))
  unfolding retrieve_loop all_routes
  retrieve_loop-all_routes [] m = refl
  retrieve_loop-all_routes (j ∷ js) m = elim (Result-cases (retrieve_route json j)) [
    | inl ((t, r), e) ↦ rw e (
        retrieve_loop-all_routes js (add_route t r m)
        ∙ sym (>>=-assoc (all_routes js) (λ rs. ok ((t, r) ∷ rs)) (λ ps. ok (add_all ps m))))
    | inr (x, e) ↦ rw e
  ]

  module _ (laws : JsonLaws json) where
    retrieve_routes-all_routes :
        (p : J)
        → json.is_array p ≡ true
        → retrieve_routes json p ≡ (all_routes (json.elements p) >>= λ ps. ok (add_all ps []))
    unfolding retrieve_routes
    retrieve_routes-all_routes p h = elim (Bool-cases (json.is_empty p)) [
      | inl e ↦ rw (h, e, laws.is_empty-elements p e) (unfold all_routes in refl)
      | inr e ↦ rw (h, e) (retrieve_loop-all_routes (json.elements p) [])
    ]

    -- For a JSON array, `retrieve_routes` throws what the first route that is refused throws, or it
    -- gives the map that groups all routes of the array by input topic, in the order of the array.
    pub retrieve_routes-Groups :
        (p : J)
        → json.is_array p ≡ true
        → Groups (all_routes (json.elements p)) (retrieve_routes json p)
    retrieve_routes-Groups p h =
        rw (retrieve_routes-all_routes p h) (Groups-of_add_all (all_routes (json.elements p)))
