-- ===== src/Warden/Pipeline/Permuted.antt =====
-- The publications up to their order.
use mqttraffic_warden.Common.{
  ℕ, ◌≤◌, ◌≡◌, sym, ◌∙◌, false, ◌++◌, List, All, length, weigh-append, Perm-of_weigh,
}
use mqttraffic_warden.Json.{JsonOps, FloatOps}
use mqttraffic_warden.Queue.{QueueOps, QueueLaws}
use mqttraffic_warden.Warden.Routes.{RouteConfigurations}
use mqttraffic_warden.Warden.Pipeline.{State, Message, Work, Publication}
use mqttraffic_warden.Warden.Pipeline.Schedule.{Event, run, deliveries}
use mqttraffic_warden.Warden.Pipeline.Owed.{expected, owed}
use mqttraffic_warden.Warden.Pipeline.Conservation.{owed-run}
use mqttraffic_warden.Warden.Pipeline.Progress.{steps_left}
use mqttraffic_warden.Warden.Pipeline.Rounds.{rounds, turns, turns-IsFair, length-turns_le}
use mqttraffic_warden.Warden.Pipeline.Fair.{IsFair, in_turn}
use mqttraffic_warden.Warden.Pipeline.Delivery.{in_turn-owed}
use mathlib.Core.List.{Perm, flat_map}
use native.Mathlib.Decide.{ℕ_discrete}

pub Publication-discrete : Discrete Publication
Publication-discrete = hlevel ℕ_discrete

module _ {J F D M W : Type 0} (json : JsonOps J F D) (floats : FloatOps F D)
    (routes : RouteConfigurations) (messages : QueueOps (Message J) M) (works : QueueOps (Work J) W)
    (mlaws : QueueLaws messages) (wlaws : QueueLaws works) where
  -- In every run that no exception ends, from any state, the publications made together with those that
  -- the messages under way will lead to are, up to their order, what they were before the run, with the
  -- publications that the specification asks for the messages that have arrived.
  pub owed-run-Perm :
      (es : List Event) (s : State J M W)
      → (run json floats messages works routes es s).terminated ≡ false
      → Perm (owed json floats routes messages works (run json floats messages works routes es s)) (
          owed json floats routes messages works s
          ++ flat_map (expected json floats routes) (deliveries json es))
  owed-run-Perm es s alive = Perm-of_weigh Publication-discrete _ _ λ f.
      owed-run json floats routes messages works mlaws wlaws f es s alive
      ∙ sym (weigh-append f (owed json floats routes messages works s) _)

  -- After a run that consists of at least as many parts as there are steps left, where in each part nothing arrives
  -- and each thread makes at least one step, in any order, and if no exception has ended the process, what
  -- has been published is, up to its order, what had been published before together with the
  -- publications that the messages under way lead to.
  pub in_turn-owed-Perm :
      (parts : List (List Event)) (s : State J M W)
      → All IsFair parts
      → steps_left json floats messages works routes s ≤ length parts
      → (run json floats messages works routes (in_turn parts) s).terminated ≡ false
      → Perm
          (run json floats messages works routes (in_turn parts) s).published
          (owed json floats routes messages works s)
  in_turn-owed-Perm parts s fair h alive =
      Perm-of_weigh Publication-discrete _ _
        λ f. in_turn-owed json floats routes messages works mlaws wlaws f parts s fair h alive

  -- The same after at least as many rounds as there are steps left.
  pub rounds-owed-Perm :
      (n : ℕ) (s : State J M W)
      → steps_left json floats messages works routes s ≤ n
      → (run json floats messages works routes (rounds n) s).terminated ≡ false
      → Perm
          (run json floats messages works routes (rounds n) s).published
          (owed json floats routes messages works s)
  rounds-owed-Perm n s h alive =
      in_turn-owed-Perm (turns n) s (turns-IsFair n) (length-turns_le _ n h) alive
