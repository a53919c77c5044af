-- ===== src/Warden/Pipeline/Outcomes.antt =====
-- What the transformers of one tuple leave, and when they end the process.
use mqttraffic_warden.Common.{
  ℕ, ◌≡◌, ◌≢◌, refl, sym, ap, ◌∙◌, inl, inr, true, false, List, [], ◌∷◌, ◌++◌, Text, take, drop,
  Result, ok, throw, Exception, init_failed, setup_failed, execution_failed, out_of_range,
  json_error, mqtt_error, Bool-cases, Result-cases, Ensures, >>=-Ensures, Ensures_elim, is_empty,
  leb, length,
}
use mqttraffic_warden.Json.{JsonOps, FloatOps, JsonLaws}
use mqttraffic_warden.Queue.{QueueOps}
use mqttraffic_warden.Strings.Fields.{fields, fields-ne-nil}
use mqttraffic_warden.Topic.{split_topic, vector_at, place_sub_topic}
use mqttraffic_warden.Topic.Laws.{split_topic_lem, split_topic-place_sub_topic}
use mqttraffic_warden.Transformer.TopicToTopic
use mqttraffic_warden.Transformer.PayloadToTopic
use mqttraffic_warden.Transformer.TopicToPayload
use mqttraffic_warden.Transformer.PayloadToPayload
use mqttraffic_warden.Transformer.PayloadToPayload.{PayloadToPayloadTransformation}
use mqttraffic_warden.Transformer.PayloadToPayload.Laws.{execute_missing}
use mqttraffic_warden.Transformer.Dispatch.{
  StreamTransformer, topic_to_topic, payload_to_topic, topic_to_payload, payload_to_payload,
  execute,
}
use mqttraffic_warden.Warden.Pipeline.{
  State, Message, Work, catch_execution, run_transformers, run_work, finish, process,
}

is_empty-append : {A : Type 0} (xs : List A) (y : A) (ys : List A) → is_empty (xs ++ y ∷ ys) ≡ false
is_empty-append [] y ys = refl
is_empty-append (x ∷ xs) y ys = refl

append-ne-nil : {A : Type 0} (xs ys zs : List A) → ys ≢ [] → xs ++ (ys ++ zs) ≢ []
append-ne-nil [] [] zs h = λ e. h refl
append-ne-nil [] (y ∷ ys) zs h = λ e. cc
append-ne-nil (x ∷ xs) ys zs h = λ e. cc

place_sub_topic-ne-nil : (n : ℕ) (sub out : Text) → out ≢ [] → place_sub_topic n sub out ≢ []
place_sub_topic-ne-nil n sub out h = λ e.
    append-ne-nil (take n (split_topic out)) (fields b'/' sub) (drop n (split_topic out))
      (fields-ne-nil b'/' sub)
      (sym (split_topic-place_sub_topic n sub out h) ∙ ap split_topic e ∙ split_topic_lem [])

abbrev NonemptyTopic : {J : Type 0} → Message J → Type 0
NonemptyTopic m = m.0 ≢ []

module _ {J F D : Type 0} (json : JsonOps J F D) (floats : FloatOps F D) where
  topic_to_topic-ne-nil :
      (x : TopicToTopic.TopicToTopicTransformation) (it out : Text)
      → out ≢ []
      → Ensures (λ t. t ≢ []) (TopicToTopic.execute x it out)
  unfolding TopicToTopic.execute
  topic_to_topic-ne-nil x it out h =
      elim (Bool-cases (leb (length (split_topic it)) x.from_topic)) [
        | inl b ↦ rw b tt
        | inr b ↦ rw b (
            >>=-Ensures (λ t. t ≢ []) (vector_at (split_topic it) x.from_topic) _
              λ sub e. place_sub_topic-ne-nil x.to_topic sub out h)
      ]

  payload_to_topic-NonemptyTopic :
      (x : PayloadToTopic.PayloadToTopicTransformation) (ip : J) (out : Text) (op : J)
      → out ≢ []
      → Ensures (NonemptyTopic {J = J}) (PayloadToTopic.execute json floats x ip out op)
  unfolding PayloadToTopic.execute
  payload_to_topic-NonemptyTopic x ip out op h =
      >>=-Ensures (NonemptyTopic {J = J}) (PayloadToTopic.input_text json floats x ip) _ λ text e.
        >>=-Ensures (NonemptyTopic {J = J}) (PayloadToTopic.drop_payload json x op) _
          λ p e'. place_sub_topic-ne-nil x.to_topic text out h

  execute-NonemptyTopic :
      (t : StreamTransformer) (input_topic : Text) (input_payload : J) (m : Message J)
      → m.0 ≢ []
      → Ensures (NonemptyTopic {J = J}) (execute json floats t input_topic input_payload m.0 m.1)
  unfolding execute
  execute-NonemptyTopic (topic_to_topic x) it ip m h =
      >>=-Ensures (NonemptyTopic {J = J}) (TopicToTopic.execute x it m.0) _
        λ t e. Ensures_elim (λ t. t ≢ []) _ t (topic_to_topic-ne-nil x it m.0 h) e
  execute-NonemptyTopic (payload_to_topic x) it ip m h =
      payload_to_topic-NonemptyTopic x ip m.0 m.1 h
  execute-NonemptyTopic (topic_to_payload x) it ip m h =
      >>=-Ensures (NonemptyTopic {J = J}) (TopicToPayload.execute json floats x it m.1) _ λ p e. h
  execute-NonemptyTopic (payload_to_payload x) it ip m h =
      >>=-Ensures (NonemptyTopic {J = J}) (PayloadToPayload.execute json floats x ip m.1) _ λ p e. h

  catch_execution-Ensures :
      (P : Message J → Type 0) (m : Message J) (r : Result (Message J))
      → P m
      → Ensures P r
      → Ensures P (catch_execution m r)
  catch_execution-Ensures P m (ok x) h k = k
  catch_execution-Ensures P m (throw execution_failed) h k = h
  catch_execution-Ensures P m (throw init_failed) h k = tt
  catch_execution-Ensures P m (throw setup_failed) h k = tt
  catch_execution-Ensures P m (throw out_of_range) h k = tt
  catch_execution-Ensures P m (throw json_error) h k = tt
  catch_execution-Ensures P m (throw mqtt_error) h k = tt

  run_transformers-NonemptyTopic :
      (ts : List StreamTransformer) (it : Text) (ip : J) (m : Message J)
      → m.0 ≢ []
      → Ensures (NonemptyTopic {J = J}) (run_transformers json floats ts it ip m)
  unfolding run_transformers
  run_transformers-NonemptyTopic [] it ip m h = h
  run_transformers-NonemptyTopic (t ∷ ts) it ip m h =
      >>=-Ensures (NonemptyTopic {J = J}) (catch_execution m (execute json floats t it ip m.0 m.1))
        _
        λ next e. run_transformers-NonemptyTopic ts it ip next (
          Ensures_elim (NonemptyTopic {J = J}) _ next
            (catch_execution-Ensures (NonemptyTopic {J = J}) m _ h
              (execute-NonemptyTopic t it ip m h))
            e)

  -- The transformers never take an output topic that is not empty to an empty one, errors included.
  pub run_work-topic :
      (w : Work J) (topic : Text) (payload : J)
      → w.output_topic ≢ []
      → run_work json floats w ≡ ok (topic, payload)
      → topic ≢ []
  unfolding run_work
  run_work-topic w topic payload h e =
      Ensures_elim (NonemptyTopic {J = J}) _ (topic, payload)
        (run_transformers-NonemptyTopic w.stream_transformer_list w.input_topic w.input_payload
          (w.output_topic, w.output_payload) h)
        e

  module _ (laws : JsonLaws json) where
    missing_throws :
        (before after : List StreamTransformer) (m : PayloadToPayloadTransformation) (it : Text)
        (ip : J) (out : Message J)
        → json.contains ip m.from_payload ≡ false
        → (e : Exception) × (run_transformers json floats
              (before ++ payload_to_payload m ∷ after)
              it
              ip
              out
            ≡ throw e)
    unfolding run_transformers execute
    missing_throws [] after m it ip out h =
        (json_error, simp (execute_missing json laws floats m ip out.1 h))
    missing_throws (t ∷ before) after m it ip out h =
        elim (Result-cases (catch_execution out (execute json floats t it ip out.0 out.1))) [
          | inl (next, e) ↦ let (y, f) = missing_throws before after m it ip next h in (y, rw e f)
          | inr (x, e) ↦ (x, rw e)
        ]

    -- If a payload-to-payload transformer of a popped tuple reads a key that the input payload lacks, the
    -- transform thread ends with an exception that nothing catches, whatever the other transformers do.
    pub process_missing :
        {M W : Type 0} (messages : QueueOps (Message J) M) (works : QueueOps (Work J) W)
        (before after : List StreamTransformer) (m : PayloadToPayloadTransformation) (w : Work J)
        (s : State J M W)
        → w.stream_transformer_list ≡ before ++ payload_to_payload m ∷ after
        → json.contains w.input_payload m.from_payload ≡ false
        → (process json floats messages works w s).terminated ≡ true
    unfolding process run_work finish
    process_missing messages works before after m w s e h =
        let (x, f) =
          missing_throws before after m w.input_topic w.input_payload
            (w.output_topic, w.output_payload) h in
        simp (process, run_work, e, is_empty-append before (payload_to_payload m) after, f, finish)
