-- ===== src/Warden/Pipeline/Delivery.antt =====
-- What is under way, once the threads have had their turns.
use mqttraffic_warden.Common.{ℕ, ◌≤◌, ◌≡◌, refl, inl, inr, false, List, All, length, weigh, arith}
use mqttraffic_warden.Json.{JsonOps, FloatOps}
use mqttraffic_warden.Queue.{QueueOps, QueueLaws}
use mqttraffic_warden.Warden.Routes.{RouteConfigurations}
use mqttraffic_warden.Warden.Pipeline.{State, Message, Work, Publication}
use mqttraffic_warden.Warden.Pipeline.Schedule.{Event, run, deliveries}
use mqttraffic_warden.Warden.Pipeline.Owed.{expected, owed, weigh-owed}
use mqttraffic_warden.Warden.Pipeline.Conservation.{owed-run, total_of_idle}
use mqttraffic_warden.Warden.Pipeline.Progress.{steps_left}
use mqttraffic_warden.Warden.Pipeline.Fair.{IsFair, in_turn, in_turn-IsIdle, deliveries-in_turn}
use mathlib.Core.List.{flat_map}

module _ {J F D M W : Type 0} (json : JsonOps J F D) (floats : FloatOps F D)
    (routes : RouteConfigurations) (messages : QueueOps (Message J) M) (works : QueueOps (Work J) W)
    (mlaws : QueueLaws messages) (wlaws : QueueLaws works) (f : Publication → ℕ) where
  no_deliveries :
      (parts : List (List Event))
      → All IsFair parts
      → weigh f (flat_map (expected json floats routes) (deliveries json (in_turn parts))) ≡ 0
  unfolding flat_map
  no_deliveries parts fair = rw (deliveries-in_turn json parts fair) refl

  -- After a run of at least as many fair parts as there are steps left, and if no exception has ended
  -- the process, what has been published is what had been published before together with the
  -- publications that the messages under way lead to: under every weight the totals agree.
  pub in_turn-owed :
      (parts : List (List Event)) (s : State J M W)
      → All IsFair parts
      → steps_left json floats messages works routes s ≤ length parts
      → (run json floats messages works routes (in_turn parts) s).terminated ≡ false
      → weigh f (run json floats messages works routes (in_turn parts) s).published
        ≡ weigh f (owed json floats routes messages works s)
  in_turn-owed parts s fair h alive =
      elim (in_turn-IsIdle json floats messages works routes mlaws wlaws parts s fair h) [
        | inl ended ↦ cc
        | inr idle ↦ omega (
          arith,
          owed-run json floats routes messages works mlaws wlaws f (in_turn parts) s alive,
          no_deliveries parts fair,
          weigh-owed json floats routes messages works mlaws wlaws f
              (run json floats messages works routes (in_turn parts) s),
          total_of_idle json floats routes messages works mlaws wlaws f
              (run json floats messages works routes (in_turn parts) s) idle,
        )
      ]
