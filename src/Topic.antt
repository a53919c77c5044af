-- ===== src/Topic.antt =====
-- Topics: `splitString(topic, "/")`, and how the two transformers that write the output topic put
-- a sub-topic into it (src/stream_transformer_topic_to_topic.cpp,
-- src/stream_transformer_payload_to_topic.cpp).
pub mod Laws
pub mod Parts
use mqttraffic_warden.Common.{
  ℕ, Bool, true, false, Option, none, some, List, [], ◌∷◌, ◌++◌, Text, leb, if◌then◌else◌, length,
  take, drop, get_elem?, Result, ok, throw, out_of_range,
}
use mqttraffic_warden.Strings.{split_string, join_strings}

abbrev pub slash : Text
slash = b'/' ∷ []

abbrev parts_of : Option (List Text) → List Text
parts_of none = []
parts_of (some ps) = ps

-- `splitString(topic, "/")`.
unfoldable pub split_topic : Text → List Text
split_topic s = parts_of (split_string s slash)

-- `v.insert(v.begin() + index, x)`, for an index that is at most the size.
abbrev pub insert_at {ℓ} : {A : Type ℓ} → ℕ → A → List A → List A
insert_at index x v = take index v ++ (x ∷ drop index v)

-- `v.at(index)`
abbrev pub vector_at {ℓ} : {A : Type ℓ} → List A → ℕ → Result A
vector_at v index = elim (get_elem? v index) [ none ↦ throw out_of_range | some x ↦ ok x ]

-- The two last branches of `execute`: append where the output topic has no such index.
unfoldable pub place_sub_topic : ℕ → Text → Text → Text
place_sub_topic to_topic sub_topic output_topic =
    if leb (length (split_topic output_topic)) to_topic
    then output_topic ++ (slash ++ sub_topic)
    else join_strings (insert_at to_topic sub_topic (split_topic output_topic)) slash
