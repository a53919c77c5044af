-- ===== src/Topic/Parts.antt =====
-- Topics and their lists of sub-topics, as types.
use mqttraffic_warden.Common.{ℕ, ◌≡◌, ◌≢◌, refl, sym, ap, ◌∙◌, some, List, [], ◌∷◌, Text, All}
use mqttraffic_warden.Strings.{split_string, join_strings, join_loop}
use mqttraffic_warden.Strings.Find.{join-split}
use mqttraffic_warden.Strings.Fields.{Lacks}
use mqttraffic_warden.Strings.RoundTrip.{split-join}
use mqttraffic_warden.Topic.{slash, split_topic}
use mqttraffic_warden.Topic.Laws.{
  split_string-split_topic, split_topic_lem, split_topic-Lacks, split_topic-ne-nil,
}
use mathlib.Core.Equiv.{IsEquiv, Iso, iso_to_equiv}
use mathlib.Core.HLevel.{Σ_prop_path}

-- A text that is not empty.
abbrev pub NonemptyTopic : Type 0
NonemptyTopic = (s : Text) × (s ≢ [])

-- The list is not empty and not one empty part, and no part has a slash.
abbrev pub AreSubTopics : List Text → Type 0
AreSubTopics ps = (ps ≢ []) × (ps ≢ [] ∷ []) × All (Lacks b'/') ps

abbrev pub SubTopics : Type 0
SubTopics = (ps : List Text) × AreSubTopics ps

join_topic : List Text → Text
join_topic ps = join_strings ps slash

join-split_topic : (s : Text) → join_topic (split_topic s) ≡ s
unfolding join_topic
join-split_topic s =
    let (ps, e, f) = join-split s slash (λ z. cc) in
    let same : split_topic s ≡ ps = cc (split_string-split_topic s) in
    ap (λ l. join_strings l slash) same ∙ f

split_topic-join : (ps : List Text) → AreSubTopics ps → split_topic (join_topic ps) ≡ ps
unfolding join_topic
split_topic-join ps (h, k, l) =
    let split : split_string (join_strings ps slash) slash ≡ some ps = split-join b'/' ps h k l in
    cc (split_string-split_topic (join_strings ps slash))

join_topic-ne-nil : (ps : List Text) → AreSubTopics ps → join_topic ps ≢ []
join_topic-ne-nil ps h =
    λ e. h.0 (sym (split_topic-join ps h) ∙ ap split_topic e ∙ split_topic_lem [])

split_topic-AreSubTopics : (s : Text) → s ≢ [] → AreSubTopics (split_topic s)
split_topic-AreSubTopics s h = (
  split_topic-ne-nil s h,
  λ e. h (
      sym (join-split_topic s)
      ∙ ap join_topic e
      ∙ (unfold join_topic join_strings join_loop in refl)),
  split_topic-Lacks s,
)

Lacks-prop : (sep : ℕ) (s : Text) → IsProp (Lacks sep s)
Lacks-prop sep [] = hlevel
Lacks-prop sep (c ∷ s) = let rest = Lacks-prop sep s in hlevel

All-Lacks-prop : (sep : ℕ) (ps : List Text) → IsProp (All (Lacks sep) ps)
All-Lacks-prop sep [] = hlevel
All-Lacks-prop sep (p ∷ ps) =
    let head = Lacks-prop sep p in let rest = All-Lacks-prop sep ps in hlevel

AreSubTopics-prop : (ps : List Text) → IsProp (AreSubTopics ps)
AreSubTopics-prop ps = let parts = All-Lacks-prop b'/' ps in hlevel

-- The sub-topics of a topic that is not empty.
pub sub_topics : NonemptyTopic → SubTopics
sub_topics (s, h) = (split_topic s, split_topic-AreSubTopics s h)

topic-Iso-parts : Iso NonemptyTopic SubTopics
unfolding sub_topics
topic-Iso-parts = record {
  fun = sub_topics;
  inv = λ p. (join_topic p.0, join_topic-ne-nil p.0 p.1);
  rinv = λ p. Σ_prop_path AreSubTopics-prop (split_topic-join p.0 p.1);
  linv = λ t. Σ_prop_path (λ s. hlevel) (join-split_topic t.0);
}

-- `splitString` at "/" is an equivalence between the topics that are not empty and the lists of
-- sub-topics: lists without a slash in a part, other than the empty list and the list of one empty
-- part. Each such list is the list of sub-topics of one topic, and of no other.
pub sub_topics-IsEquiv : IsEquiv sub_topics
unfolding topic-Iso-parts
sub_topics-IsEquiv = (iso_to_equiv topic-Iso-parts).1
