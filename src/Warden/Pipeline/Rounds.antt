-- ===== src/Warden/Pipeline/Rounds.antt =====
-- The threads, each in its turn, round by round.
use mqttraffic_warden.Common.{
  ℕ, zero, suc, ◌≤◌, ◌≡◌, refl, ◌⊎◌, true, List, [], ◌∷◌, arith, All, length,
}
use mqttraffic_warden.Json.{JsonOps, FloatOps}
use mqttraffic_warden.Queue.{QueueOps, QueueLaws}
use mqttraffic_warden.Warden.Routes.{RouteConfigurations}
use mqttraffic_warden.Warden.Pipeline.{State, Message, Work}
use mqttraffic_warden.Warden.Pipeline.Schedule.{Event, ingests, transforms, publishes, run}
use mqttraffic_warden.Warden.Pipeline.Owed.{IsIdle}
use mqttraffic_warden.Warden.Pipeline.Progress.{steps_left}
use mqttraffic_warden.Warden.Pipeline.Fair.{IsFair, in_turn, in_turn-IsIdle}
use mathlib.Core.List.{Memᴰ}

-- Each thread makes one step, and the client takes what is published.
abbrev pub one_round : List Event
one_round = ingests ∷ transforms ∷ publishes true ∷ []

abbrev pub turns : ℕ → List (List Event)
turns zero = []
turns (suc n) = one_round ∷ turns n

-- `n` rounds.
abbrev pub rounds : ℕ → List Event
rounds n = in_turn (turns n)

length-turns : (n : ℕ) → length (turns n) ≡ n
length-turns zero = refl
length-turns (suc n) = omega (arith, length-turns n)

pub one_round-IsFair : IsFair one_round
one_round-IsFair = record {
  no_arrival = (refl, (refl, (refl, tt)));
  ingests_once = Memᴰ.head refl;
  transforms_once = Memᴰ.tail (Memᴰ.head refl);
  taken = true;
  publishes_once = Memᴰ.tail (Memᴰ.tail (Memᴰ.head refl));
}

pub turns-IsFair : (n : ℕ) → All IsFair (turns n)
turns-IsFair zero = tt
turns-IsFair (suc n) = (one_round-IsFair, turns-IsFair n)

pub length-turns_le : (k n : ℕ) → k ≤ n → k ≤ length (turns n)
length-turns_le k n h = omega (arith, h, length-turns n)

module _ {J F D M W : Type 0} (json : JsonOps J F D) (floats : FloatOps F D)
    (messages : QueueOps (Message J) M) (works : QueueOps (Work J) W) (routes : RouteConfigurations)
    (mlaws : QueueLaws messages) (wlaws : QueueLaws works) where
  -- After at least as many rounds as there are steps left, in which each thread makes one step and the client
  -- takes what is published, no message is under way, or an exception has ended the process.
  pub rounds-IsIdle :
      (n : ℕ) (s : State J M W)
      → steps_left json floats messages works routes s ≤ n
      → ((run json floats messages works routes (rounds n) s).terminated ≡ true)
        ⊎ IsIdle json floats routes messages works
            (run json floats messages works routes (rounds n) s)
  rounds-IsIdle n s h =
      in_turn-IsIdle json floats messages works routes mlaws wlaws (turns n) s (turns-IsFair n)
        (length-turns_le _ n h)
