-- ===== src/Warden/Pipeline/Alive.antt =====
-- A process that has been terminated stays so.
use mqttraffic_warden.Common.{◌≡◌, refl, Bool-cases, true, false, inl, inr, List, [], ◌∷◌}
use mqttraffic_warden.Json.{JsonOps, FloatOps}
use mqttraffic_warden.Queue.{QueueOps}
use mqttraffic_warden.Warden.Routes.{RouteConfigurations}
use mqttraffic_warden.Warden.Pipeline.{State, Message, Work}
use mqttraffic_warden.Warden.Pipeline.Schedule.{Event, act, step, run}

module _ {J F D M W : Type 0} (json : JsonOps J F D) (floats : FloatOps F D)
    (messages : QueueOps (Message J) M) (works : QueueOps (Work J) W)
    (routes : RouteConfigurations) where
  pub step_alive :
      (e : Event) (s : State J M W)
      → (step json floats messages works routes e s).terminated ≡ false
      → s.terminated ≡ false
  unfolding step
  step_alive e s h = elim (Bool-cases s.terminated) [ inl b ↦ cc (rw (b, step) at h) | inr b ↦ b ]

  pub run_alive :
      (es : List Event) (s : State J M W)
      → (run json floats messages works routes es s).terminated ≡ false
      → s.terminated ≡ false
  unfolding run
  run_alive [] s h = h
  run_alive (e ∷ es) s h =
      step_alive e s (run_alive es (step json floats messages works routes e s) h)

  pub step_ended :
      (e : Event) (s : State J M W)
      → s.terminated ≡ true
      → step json floats messages works routes e s ≡ s
  unfolding step
  step_ended e s h = rw (h, step)

  pub run_ended :
      (es : List Event) (s : State J M W)
      → s.terminated ≡ true
      → run json floats messages works routes es s ≡ s
  unfolding run
  run_ended [] s h = refl
  run_ended (e ∷ es) s h = rw (step_ended e s h) (run_ended es s h)

  pub step_lem :
      (e : Event) (s : State J M W)
      → s.terminated ≡ false
      → step json floats messages works routes e s ≡ act json floats messages works routes e s
  unfolding step
  step_lem e s h = rw (h, step)
