-- ===== src/Queue.antt =====
-- What the program calls of `tbb::concurrent_queue`, taken as a parameter. Each queue of the program
-- has one thread that pops it, and each call takes effect at one moment.
use mqttraffic_warden.Common.{Bool, Option, none, some, List, [], ◌∷◌, ◌++◌, ◌≡◌, is_empty}

-- `Q` is a queue of values of `A`; `contents` are its values, the next one to pop first.
pub record QueueOps (A Q : Type 0) : Type 0 where
  pub push : A → Q → Q
  pub try_pop : Q → Option (A × Q)
  pub empty : Q → Bool
  pub contents : Q → List A

-- The documented behaviour: first in, first out, and a failed `try_pop` means an empty queue.
pub record QueueLaws {A Q : Type 0} (queue : QueueOps A Q) : Type 0 where
  pub contents-push : (a : A) (q : Q) → queue.contents (queue.push a q) ≡ queue.contents q ++ a ∷ []
  pub try_pop_none : (q : Q) → queue.try_pop q ≡ none → queue.contents q ≡ []
  pub try_pop_some :
      (q r : Q) (a : A) → queue.try_pop q ≡ some (a, r) → queue.contents q ≡ a ∷ queue.contents r
  pub empty_iff : (q : Q) → queue.empty q ≡ is_empty (queue.contents q)
