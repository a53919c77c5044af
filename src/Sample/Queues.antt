-- ===== src/Sample/Queues.antt =====
-- A list as a queue.
use mqttraffic_warden.Common.{Option, none, some, List, [], ◌∷◌, ◌++◌, ◌≡◌, refl, is_empty}
use mqttraffic_warden.Queue.{QueueOps, QueueLaws}

abbrev pub pop_list : {A : Type 0} → List A → Option (A × List A)
pop_list [] = none
pop_list (a ∷ q) = some (a, q)

abbrev pub list_queue : {A : Type 0} → QueueOps A (List A)
list_queue = record {
  push = λ a q. q ++ a ∷ [];
  try_pop = pop_list;
  empty = is_empty;
  contents = λ q. q;
}

pop_none : {A : Type 0} (q : List A) → pop_list q ≡ none → q ≡ []
pop_none [] h = refl
pop_none (a ∷ q) h = cc

pop_some : {A : Type 0} (q r : List A) (a : A) → pop_list q ≡ some (a, r) → q ≡ a ∷ r
pop_some [] r a h = cc
pop_some (b ∷ q) r a h = cc

pub list_queue-QueueLaws : {A : Type 0} → QueueLaws {A = A} list_queue
list_queue-QueueLaws = record {
  contents-push = λ a q. refl;
  try_pop_none = pop_none;
  try_pop_some = pop_some;
  empty_iff = λ q. refl;
}
