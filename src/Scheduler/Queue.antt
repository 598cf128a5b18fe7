-- ===== src/Scheduler/Queue.antt =====
-- The job queue of uflib (`cdt_mpsc_queue.h`), which the scheduler only calls: a record of its
-- operations and of the behaviour that the scheduler relies on, a first-in first-out queue.
use ufsrvrxlib.Base.{◌≡◌, refl, ◌⊎◌, inl, inr, List, [], ◌∷◌, ◌++◌, Option, none, some}

-- `pop` gives `none` where `mpsc_queue_pop` gives NULL.
pub record MpscQueue (J Q : Type 0) : Type 0 where
  pub init : Q
  pub insert : Q → J → Q
  pub pop : Q → Option (J × Q)
  pub contents : Q → List J
  pub contents-init : contents init ≡ []
  pub contents-insert : (q : Q) (j : J) → contents (insert q j) ≡ contents q ++ j ∷ []
  pub pop_cases :
      (q : Q)
      → ((contents q ≡ []) × (pop q ≡ none))
        ⊎ ((j : J) × (r : Q) × (contents q ≡ j ∷ contents r) × (pop q ≡ some (j, r)))

-- Lists are such a queue.
abbrev pub list_pop : {J : Type 0} → List J → Option (J × List J)
list_pop [] = none
list_pop (j ∷ q) = some (j, q)

pub list_pop_cases :
    {J : Type 0} (q : List J)
    → ((q ≡ []) × (list_pop q ≡ none))
      ⊎ ((j : J) × (r : List J) × (q ≡ j ∷ r) × (list_pop q ≡ some (j, r)))
list_pop_cases [] = inl (refl, refl)
list_pop_cases (j ∷ q) = inr (j, q, refl, refl)

abbrev pub list_queue : {J : Type 0} → MpscQueue J (List J)
list_queue = record {
  init = [];
  insert = λ q j. q ++ j ∷ [];
  pop = list_pop;
  contents = λ q. q;
  contents-init = refl;
  contents-insert = λ q j. refl;
  pop_cases = list_pop_cases;
}
