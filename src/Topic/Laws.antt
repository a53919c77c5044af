-- ===== src/Topic/Laws.antt =====
-- What the sub-topics of a topic are after a sub-topic has been put in.
use mqttraffic_warden.Common.{
  ℕ, zero, suc, ◌≤◌, ◌<◌, ◌≡◌, ◌≢◌, refl, sym, ap, ◌∙◌, inl, inr, some, List, [], ◌∷◌, ◌++◌,
  append-nil, arith, Text, leb, length, take, drop, Bool-cases, All, take_all, drop_all, get_elem?,
  get_elem?-some, ok, flat_map-append,
}
use mqttraffic_warden.Strings.{split_string, join_strings}
use mqttraffic_warden.Strings.Find.{spell, join_strings-spell}
use mqttraffic_warden.Strings.Fields.{
  fields, loop_fields, split_string-fields, Lacks, fields-Lacks, fields-append-sep, fields-spell,
  flat_map-fields_of_Lacks, fields-ne-nil,
}
use mqttraffic_warden.Topic.{slash, split_topic, insert_at, vector_at, place_sub_topic}
use mathlib.Core.List.{flat_map}

-- `splitString` ends for every topic.
pub split_string-split_topic : (s : Text) → split_string s slash ≡ some (split_topic s)
unfolding split_topic
split_string-split_topic s = rw (split_string-fields b'/' s)

pub split_topic_lem : (s : Text) → split_topic s ≡ loop_fields b'/' s
unfolding split_topic
split_topic_lem s = rw (split_string-fields b'/' s)

split_topic_of_ne : (s : Text) → s ≢ [] → split_topic s ≡ fields b'/' s
split_topic_of_ne [] h = absurd (h refl)
split_topic_of_ne (c ∷ s) h = split_topic_lem (c ∷ s)

pub split_topic-Lacks : (s : Text) → All (Lacks b'/') (split_topic s)
split_topic-Lacks [] = rw (split_topic_lem []) tt
split_topic-Lacks (c ∷ s) = rw (split_topic_lem (c ∷ s)) (fields-Lacks b'/' (c ∷ s))

All-take {ℓ κ} : {A : Type ℓ} (P : A → Type κ) (n : ℕ) (xs : List A) → All P xs → All P (take n xs)
All-take P zero xs h = tt
All-take P (suc n) [] h = tt
All-take P (suc n) (x ∷ xs) (h, hs) = (h, All-take P n xs hs)

All-drop {ℓ κ} : {A : Type ℓ} (P : A → Type κ) (n : ℕ) (xs : List A) → All P xs → All P (drop n xs)
All-drop P zero xs h = h
All-drop P (suc n) [] h = tt
All-drop P (suc n) (x ∷ xs) (h, hs) = All-drop P n xs hs

spell-ne-nil : (p q : Text) (ps : List Text) → spell slash (p ∷ q ∷ ps) ≢ []
spell-ne-nil [] q ps = λ e. cc
spell-ne-nil (c ∷ p) q ps = λ e. cc

insert_at_two :
    (n : ℕ) (x p : Text) (ps : List Text)
    → (a : Text) × (b : Text) × (r : List Text) × (insert_at n x (p ∷ ps) ≡ a ∷ b ∷ r)
insert_at_two zero x p ps = (x, p, ps, refl)
insert_at_two (suc zero) x p ps = (p, x, ps, refl)
insert_at_two (suc (suc n)) x p [] = (p, x, [], refl)
insert_at_two (suc (suc n)) x p (q ∷ ps) = (p, q, _, refl)

flat_map-insert_at :
    (n : ℕ) (x : Text) (ps : List Text)
    → All (Lacks b'/') ps
    → flat_map (fields b'/') (insert_at n x ps) ≡ take n ps ++ (fields b'/' x ++ drop n ps)
unfolding flat_map
flat_map-insert_at n x ps h =
    flat_map-append (fields b'/') (take n ps) (x ∷ drop n ps)
    ∙ rw (
      flat_map-fields_of_Lacks b'/' (take n ps) (All-take _ n ps h),
      flat_map-fields_of_Lacks b'/' (drop n ps) (All-drop _ n ps h),
    )

pub split_topic-ne-nil : (s : Text) → s ≢ [] → split_topic s ≢ []
split_topic-ne-nil s h = λ e. fields-ne-nil b'/' s (sym (split_topic_of_ne s h) ∙ e)

-- A list of at least two parts, joined and split again.
split_topic-spell :
    (a b : Text) (r : List Text)
    → split_topic (spell slash (a ∷ b ∷ r)) ≡ flat_map (fields b'/') (a ∷ b ∷ r)
split_topic-spell a b r = split_topic_of_ne _ (spell-ne-nil a b r) ∙ fields-spell b'/' a (b ∷ r)

split_topic-join-insert_at :
    (n : ℕ) (x : Text) (ps : List Text)
    → ps ≢ []
    → All (Lacks b'/') ps
    → split_topic (join_strings (insert_at n x ps) slash)
      ≡ take n ps ++ (fields b'/' x ++ drop n ps)
split_topic-join-insert_at n x [] h hs = absurd (h refl)
split_topic-join-insert_at n x (p ∷ ps) h hs =
    let (a, b, r, e) = insert_at_two n x p ps in
    ap split_topic (join_strings-spell slash _ ∙ ap (spell slash) e)
    ∙ split_topic-spell a b r
    ∙ ap (flat_map (fields b'/')) (sym e)
    ∙ flat_map-insert_at n x (p ∷ ps) hs

split_topic-append :
    (s t : Text) → s ≢ [] → split_topic (s ++ (slash ++ t)) ≡ split_topic s ++ fields b'/' t
split_topic-append [] t h = absurd (h refl)
split_topic-append (c ∷ s) t h =
    split_topic_of_ne _ (λ e. cc)
    ∙ fields-append-sep b'/' (c ∷ s) t
    ∙ ap (λ f. f ++ fields b'/' t) (sym (split_topic_of_ne (c ∷ s) h))

-- For an output topic that is not empty: the sub-topics of the new output topic are the old ones with
-- those of the new part put in at the index, or at the end if the topic has no such index.
pub split_topic-place_sub_topic :
    (to_topic : ℕ) (sub_topic output_topic : Text)
    → output_topic ≢ []
    → split_topic (place_sub_topic to_topic sub_topic output_topic)
      ≡ take to_topic (split_topic output_topic)
        ++ (fields b'/' sub_topic ++ drop to_topic (split_topic output_topic))
unfolding place_sub_topic
split_topic-place_sub_topic to x out h = elim (Bool-cases (leb (length (split_topic out)) to)) [
  | inl e ↦
      let full : length (split_topic out) ≤ to = ground arith in
      rw (e, take_all to (split_topic out) full, drop_all to (split_topic out) full, append-nil)
        (split_topic-append out x h)
  | inr e ↦ rw e (
      split_topic-join-insert_at to x (split_topic out) (split_topic-ne-nil out h)
        (split_topic-Lacks out))
]

pub vector_at_within :
    (v : List Text) (i : ℕ)
    → i < length v
    → (x : Text) × (get_elem? v i ≡ some x) × (vector_at v i ≡ ok x)
vector_at_within v i h = let (x, e) = get_elem?-some v i h in (x, e, rw (e, vector_at))
