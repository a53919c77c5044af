-- ===== src/Client/Attempts.antt =====
-- How long the client tries: the calls of `connect`, by `init` and by `reconnect`.
use mqttraffic_warden.Common.{◌≡◌, ◌≢◌, refl, ◌⊎◌, inl, inr, Bool, true, false, List, Text}
use mqttraffic_warden.Client.{
  Client, down, init_callback, connect, reconnect, on_failure, connection_lost,
}
use mqttraffic_warden.Client.Connection.{
  Reports, failed, succeeded, lost, finished, after, Reports-down, connected-phase,
}

-- Whether the last call of `connect` has started an attempt; `first` is the call before the reports.
abbrev pub last_accepted : {c d : Client} → Bool → Reports c d → Bool
last_accepted first finished = first
last_accepted first (after rs (failed accepted a h)) = accepted
last_accepted first (after rs (succeeded accepts a h)) = last_accepted first rs
last_accepted first (after rs (lost accepted a h)) = accepted

-- The client has an attempt or a connection exactly if the call was accepted.
abbrev Tries : Bool → Client → Type 0
Tries accepted d = ((accepted ≡ true) × (d.phase ≢ down)) ⊎ ((accepted ≡ false) × (d.phase ≡ down))

connect-Tries :
    (accepted : Bool) (c : Client) → c.phase ≡ down → Tries accepted (connect accepted c)
unfolding connect
connect-Tries true c h = inl (refl, λ e. cc)
connect-Tries false c h = inr (refl, h)

last_accepted-Tries :
    {c d : Client} (first : Bool) (rs : Reports c d)
    → Tries first c
    → Tries (last_accepted first rs) d
unfolding on_failure connection_lost reconnect
last_accepted-Tries first finished t = t
last_accepted-Tries first (after rs (failed accepted a h)) t = connect-Tries accepted _ refl
last_accepted-Tries first (after rs (lost accepted a h)) t = connect-Tries accepted _ refl
last_accepted-Tries first (after rs (succeeded accepts a h)) t =
    elim (last_accepted-Tries first rs t) [
      | inl (e, n) ↦ inl (e, λ d. cc (d, connected-phase accepts _))
      | inr (e, n) ↦ cc (n, h)
    ]

-- From a client that is not connected, with its callback set and `connect` called, and whatever the Paho
-- client then reports: if the last call of connect, by init or by a callback, was accepted, the client
-- has an attempt or a connection; if that call threw, it has none, and nothing is ever reported again: it
-- stays without a connection for good.
pub last_accepted-phase :
    {d : Client} (topics : List Text) (first : Bool) (c : Client)
    → c.phase ≡ down
    → (rs : Reports (connect first (init_callback topics c)) d)
    → ((last_accepted first rs ≡ true) × (d.phase ≢ down))
      ⊎ ((last_accepted first rs ≡ false) × (d.phase ≡ down) × ((e : Client) → Reports d e → e ≡ d))
unfolding init_callback
last_accepted-phase topics first c h rs =
    elim (last_accepted-Tries first rs
      (connect-Tries first (record c { topics_to_subscribe = topics }) h)) [
        | inl t ↦ inl t
        | inr (e, n) ↦ inr (e, n, λ later more. Reports-down n more)
      ]
