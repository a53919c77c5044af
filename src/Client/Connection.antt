-- ===== src/Client/Connection.antt =====
-- The connection over all that the Paho client can report.
use mqttraffic_warden.Common.{
  ℕ, ◌≡◌, refl, sym, ap, ◌∙◌, inl, inr, Bool, true, false, List, [], ◌∷◌, ◌++◌, map, append_assoc,
  append-nil, Text, Bool-cases,
}
use mqttraffic_warden.Client.{
  down, connecting, up, Client, init_callback, connect, reconnect, on_failure, connection_lost,
  subscribe_all, connected,
}

-- A report of the Paho client: it reports the outcome of an attempt only while there is one, and a lost
-- connection only while there is a connection. A new connection has no subscription.
pub data Report : Client → Client → Type 0 where
  failed :
      {c : Client} (accepted : Bool)
      → c.terminated ≡ false
      → c.phase ≡ connecting
      → Report c (on_failure accepted (record c { phase = down }))
  succeeded :
      {c : Client} (accepts : Text → Bool)
      → c.terminated ≡ false
      → c.phase ≡ connecting
      → Report c (connected accepts (record c { phase = up; subscriptions = [] }))
  lost :
      {c : Client} (accepted : Bool)
      → c.terminated ≡ false
      → c.phase ≡ up
      → Report c (connection_lost accepted (record c { phase = down; subscriptions = [] }))

pub data Reports : Client → Client → Type 0 where
  finished : {c : Client} → Reports c c
  after : {b c d : Client} → Reports b c → Report c d → Reports b d

abbrev pub with_qos : Text → Text × ℕ
with_qos t = (t, 2)

-- The topics are the given ones, and a connection has a subscription for each of them, in their order.
pub record IsSubscribed (topics : List Text) (c : Client) : Type 0 where
  pub same_topics : c.topics_to_subscribe ≡ topics
  pub all_subscribed : c.phase ≡ up → c.terminated ≡ false → c.subscriptions ≡ map with_qos topics

subscribe_all-phase :
    (accepts : Text → Bool) (ts : List Text) (c : Client)
    → ((subscribe_all accepts ts c).phase ≡ c.phase)
      × ((subscribe_all accepts ts c).topics_to_subscribe ≡ c.topics_to_subscribe)
unfolding subscribe_all
subscribe_all-phase accepts [] c = (refl, refl)
subscribe_all-phase accepts (t ∷ ts) c = elim (Bool-cases (accepts t)) [
  | inl b ↦
      rw b (
        subscribe_all-phase accepts ts
          (record c { subscriptions = c.subscriptions ++ (t, 2) ∷ [] }))
  | inr b ↦ rw b (refl, refl)
]

pub connected-phase :
    (accepts : Text → Bool) (c : Client)
    → (connected accepts (record c { phase = up; subscriptions = [] })).phase ≡ up
unfolding connected
connected-phase accepts c =
    (subscribe_all-phase accepts c.topics_to_subscribe
      (record c { phase = up; subscriptions = [] })).0

subscribe_all-subscriptions :
    (accepts : Text → Bool) (ts : List Text) (c : Client)
    → (subscribe_all accepts ts c).terminated ≡ false
    → (subscribe_all accepts ts c).subscriptions ≡ c.subscriptions ++ map with_qos ts
unfolding subscribe_all
subscribe_all-subscriptions accepts [] c h = sym (append-nil c.subscriptions)
subscribe_all-subscriptions accepts (t ∷ ts) c h = elim (Bool-cases (accepts t)) [
  | inl b ↦ rw b (
      subscribe_all-subscriptions accepts ts
        (record c { subscriptions = c.subscriptions ++ (t, 2) ∷ [] }) (rw b at h)
      ∙ append_assoc c.subscriptions ((t, 2) ∷ []) (map with_qos ts))
  | inr b ↦ cc (rw (b, subscribe_all) at h)
]

reconnect-IsSubscribed :
    (topics : List Text) (accepted : Bool) (c : Client)
    → c.topics_to_subscribe ≡ topics
    → c.phase ≡ down
    → IsSubscribed topics (reconnect accepted c)
unfolding reconnect connect
reconnect-IsSubscribed topics true c h e = record { same_topics = h; all_subscribed = λ p. cc }
reconnect-IsSubscribed topics false c h e = record { same_topics = h; all_subscribed = λ p. cc }

Report-IsSubscribed :
    {topics : List Text} {c d : Client} → IsSubscribed topics c → Report c d → IsSubscribed topics d
unfolding on_failure connection_lost connected
Report-IsSubscribed {topics} {c} i (failed accepted a h) =
    reconnect-IsSubscribed topics accepted (record c { phase = down }) i.same_topics refl
Report-IsSubscribed {topics} {c} i (lost accepted a h) =
    reconnect-IsSubscribed topics accepted (record c { phase = down; subscriptions = [] })
      i.same_topics refl
Report-IsSubscribed {topics} {c} i (succeeded accepts a h) = record {
  same_topics =
      (subscribe_all-phase accepts c.topics_to_subscribe
        (record c { phase = up; subscriptions = [] })).1
      ∙ i.same_topics;
  all_subscribed = λ p alive.
      subscribe_all-subscriptions accepts c.topics_to_subscribe
        (record c { phase = up; subscriptions = [] }) alive
      ∙ ap (map with_qos) i.same_topics;
}

Reports-keep :
    {topics : List Text} {c d : Client}
    → Reports c d
    → IsSubscribed topics c
    → IsSubscribed topics d
Reports-keep finished i = i
Reports-keep (after rs r) i = Report-IsSubscribed (Reports-keep rs i) r

-- From a client that is not connected, with its callback set for the topics and `connect` called, and
-- whatever the Paho client then reports: whenever the client is connected and no exception has left a
-- callback, it has asked for a subscription of each topic with QoS 2, in their order, on this very
-- connection.
pub Reports-IsSubscribed :
    {d : Client} (topics : List Text) (accepted : Bool) (c : Client)
    → c.phase ≡ down
    → Reports (connect accepted (init_callback topics c)) d
    → IsSubscribed topics d
unfolding init_callback
Reports-IsSubscribed topics accepted c h rs = Reports-keep rs (
    unfold reconnect in
    reconnect-IsSubscribed topics accepted (record c { topics_to_subscribe = topics }) refl h)

Report-down : {c d : Client} → c.phase ≡ down → Report c d → ⊥
Report-down h (failed accepted a e) = cc
Report-down h (succeeded accepts a e) = cc
Report-down h (lost accepted a e) = cc

pub Reports-down : {c d : Client} → c.phase ≡ down → Reports c d → d ≡ c
Reports-down h finished = refl
Reports-down h (after rs r) = absurd (Report-down (ap (λ x. x.phase) (Reports-down h rs) ∙ h) r)

-- If the call of `connect` throws when the connection is lost, the Paho client has nothing more to
-- report: the client stays disconnected for good, since nothing calls `connect` again.
pub connection_lost_for_good :
    {d : Client} (c : Client)
    → Reports (connection_lost false (record c { phase = down; subscriptions = [] })) d
    → (d.phase ≡ down) × (d.subscriptions ≡ [])
unfolding connection_lost reconnect connect
connection_lost_for_good c rs =
    let same = Reports-down {c = record c { phase = down; subscriptions = [] }} refl rs in
    (ap (λ x. x.phase) same, ap (λ x. x.subscriptions) same)
