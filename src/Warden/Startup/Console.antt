-- ===== src/Warden/Startup/Console.antt =====
-- When `main` returns, with the threads that it joins and the loop that waits for "q".
use mqttraffic_warden.Common.{
  List, Option, Result, ok, throw, Exception, ◌>>=◌, ℕ, ◌≡◌, ◌||◌, Bool, false, some, [], ◌∷◌, Text,
  ◌==◌,
}
use mqttraffic_warden.Json.{JsonOps, FloatOps}
use mqttraffic_warden.Queue.{QueueOps}
use mqttraffic_warden.Warden.Pipeline.{State, Message, Work}
use mqttraffic_warden.Warden.Pipeline.Schedule.{Event}
use mqttraffic_warden.Warden.Startup.{Initialised, init, main, Threads, Ending, returned}
use mathlib.Core.Option

abbrev pub is_quit : ℕ → Bool
is_quit c = c == b'q' || c == b'Q'

-- There is a "q" or a "Q" in the console input.
abbrev pub has_quit : Text → Bool
has_quit [] = false
has_quit (c ∷ console) = is_quit c || has_quit console

-- No loop of a thread has ended.
record GoesOn {J M W : Type 0} (t : Threads J M W) : Type 0 where
  ingests_on : t.ingest_ended ≡ false
  transforms_on : t.transform_ended ≡ false
  publishes_on : t.publish_ended ≡ false

module _ {J F D : Type 0} (json : JsonOps J F D) (accepts : Text → Text → Bool) where
  -- What `main` reads and sets up; `init` is its second step.
  abbrev pub set_up : Text → Result Initialised
  set_up config = json.parse config >>= init json accepts

  module _ {M W : Type 0} (floats : FloatOps F D) (messages : QueueOps (Message J) M)
      (works : QueueOps (Work J) W) (idle : State J M W) (config : Text) where
    abbrev go_main : List Event → ℕ → Text → Option Ending
    go_main turns fuel console =
        main json accepts floats messages works turns fuel idle config console

    -- `main` returns, after some turns of the threads and some rounds of the loop on the console.
    abbrev pub Returns : ℕ → Text → Type 0
    Returns code console =
        (turns : List Event) × (fuel : ℕ) × (main json accepts floats messages works turns fuel idle
            config console
          ≡ some (returned code))

    -- `init` ends well without routes.
    abbrev pub NoRoutes : Type 0
    NoRoutes = (s : Initialised) × (set_up config ≡ ok s) × (s.routes ≡ [])

    abbrev pub Fails : Type 0
    Fails = (e : Exception) × (set_up config ≡ throw e)
