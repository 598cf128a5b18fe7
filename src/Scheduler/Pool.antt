-- ===== src/Scheduler/Pool.antt =====
-- src/ufsrv_scheduler/ufsrv_scheduler.c: the pool of schedulers. Its workers are never NULL.
pub mod Lifecycle
pub mod Share
pub mod Start
use ufsrvrxlib.Base.{
  ℕ, zero, suc, ◌+◌, ◌%◌, ◌^◌, Bool, true, false, not, Option, none, some, List, [], ◌∷◌, ◌++◌, map,
  if◌then◌else◌, ltb, get_elem?, set,
}
use ufsrvrxlib.Base.Int.{ℤ, pos, negsuc}
use ufsrvrxlib.Scheduler.Queue.{MpscQueue}
use ufsrvrxlib.Scheduler.{
  Job, Scheduler, Status, success, failure, create, start_scheduler, stop_scheduler, join_scheduler,
  submit, submit_to_scheduler, destroy, Destroyed,
}

pub record Pool (Q : Type 0) : Type 0 where
  pub workers : List (Scheduler Q)
  pub worker_pool_sz : ℕ
  pub next : ℕ
  pub is_running : Bool

-- What calloc, strdup and eventfd answer while one worker is created.
pub record Resources : Type 0 where
  pub calloc_ok : Bool
  pub strdup_ok : Bool
  pub eventfd : Option ℕ

module _ {Q : Type 0} where
  -- The loop of `UfsrvSchedulerPoolStart` at index `i`; `done` are the workers before it.
  unfoldable pub start_workers :
      (create_ok : ℕ → Bool)
      → ℕ
      → List (Scheduler Q)
      → List (Scheduler Q)
      → List (Scheduler Q) × Status
  start_workers create_ok i done [] = (done, success)
  start_workers create_ok i done (w ∷ ws) =
      let (w', r) = start_scheduler (create_ok i) w in
      let rest = start_workers create_ok (i + 1) (done ++ w' ∷ []) ws in
      elim r [ success ↦ rest | failure ↦ (map stop_scheduler done ++ w' ∷ ws, failure) ]

  -- The pool runs once all of its workers were started.
  unfoldable pub finish_start : Pool Q → List (Scheduler Q) × Status → Option (Pool Q) × Status
  finish_start p (ws, success) = (some (record p { workers = ws; is_running = true }), success)
  finish_start p (ws, failure) = (some (record p { workers = ws }), failure)

  unfoldable pub pool_start : (create_ok : ℕ → Bool) → Option (Pool Q) → Option (Pool Q) × Status
  unfolding start_workers finish_start
  pool_start create_ok none = (none, failure)
  pool_start create_ok (some p) = finish_start p (start_workers create_ok 0 [] p.workers)

  unfoldable pub pool_stop : Option (Pool Q) → Option (Pool Q)
  pool_stop none = none
  pool_stop (some p) =
      some (record p { workers = map stop_scheduler p.workers; is_running = false })

  unfoldable pub pool_join : (Scheduler Q → Scheduler Q) → Option (Pool Q) → Option (Pool Q)
  pool_join pthread_join none = none
  pool_join pthread_join (some p) =
      some (record p { workers = map (join_scheduler pthread_join) p.workers })

  unfoldable pub pool_size : Option (Pool Q) → ℕ
  pool_size none = 0
  pool_size (some p) = p.worker_pool_sz

-- `snprintf` writes a worker's name from the prefix, or NULL, and its index.
module _ {Q : Type 0} (mq : MpscQueue Job Q) (snprintf : Option (List ℕ) → ℕ → List ℕ) where
  -- The pool, or the workers that were made and are destroyed again when one cannot be made.
  pub data Creation : Type 0 where
    null : Creation
    undone : List (Scheduler Q) → Creation
    created : Pool Q → Creation

  unfoldable pub create_workers :
      (ℕ → Resources) → Option (List ℕ) → (count left i : ℕ) → List (Scheduler Q) → Creation
  create_workers os prefix count zero i made =
      created (record { workers = made; worker_pool_sz = count; next = 0; is_running = false })
  create_workers os prefix count (suc left) i made =
      elim (create mq (os i).calloc_ok (os i).strdup_ok (os i).eventfd (some (snprintf prefix i))) [
        | none ↦ undone made
        | some w ↦ create_workers os prefix count left (i + 1) (made ++ w ∷ [])
      ]

  unfoldable pub pool_create :
      (calloc_ok workers_ok : Bool) → (ℕ → Resources) → ℤ → Option (List ℕ) → Creation
  unfolding create_workers
  pool_create calloc_ok workers_ok os (negsuc n) prefix = null
  pool_create calloc_ok workers_ok os (pos zero) prefix = null
  pool_create calloc_ok workers_ok os (pos (suc n)) prefix =
      if not calloc_ok
      then null
      else if not workers_ok
      then null
      else create_workers os prefix (suc n) (suc n) 0 []

module _ {Q : Type 0} (mq : MpscQueue Job Q) where
  -- A submit to `workers[i]`; `none` is an access out of bounds.
  abbrev submit_at : (malloc_ok : Bool) → Pool Q → ℕ → ℕ → ℕ → Option (Pool Q × Bool)
  submit_at malloc_ok p i callback context = elim (get_elem? p.workers i) [
    | none ↦ none
    | some w ↦
        let (w', accepted) =
          submit_to_scheduler mq malloc_ok w
            (record { callback = some callback; callback_context = context }) in
        some (record p { workers = set p.workers i w' }, accepted)
  ]

  -- The counter is an `unsigned`: it wraps at 2 ^ 32.
  unfoldable pub submit_round_robin : (malloc_ok : Bool) → Pool Q → ℕ → ℕ → Option (Pool Q × Bool)
  submit_round_robin malloc_ok p callback context =
      if not p.is_running
      then some (p, false)
      else submit_at malloc_ok (record p { next = (p.next + 1) % 2 ^ 32 })
          (p.next % p.worker_pool_sz) callback context

  -- With the tests for NULL. `none` is an access out of bounds.
  unfoldable pub pool_submit :
      (malloc_ok : Bool) → Option (Pool Q) → Option ℕ → ℕ → Option (Option (Pool Q) × Bool)
  unfolding submit_round_robin
  pool_submit malloc_ok none callback context = some (none, false)
  pool_submit malloc_ok (some p) none context = some (some p, false)
  pool_submit malloc_ok (some p) (some f) context =
      elim (submit_round_robin malloc_ok p f context) [
        | none ↦ none
        | some (q, accepted) ↦ some (some q, accepted)
      ]

  unfoldable pub submit_to_index : (malloc_ok : Bool) → Pool Q → ℤ → ℕ → ℕ → Option (Pool Q × Bool)
  unfolding submit_round_robin
  submit_to_index malloc_ok p (negsuc n) callback context =
      if not p.is_running then some (p, false) else submit_round_robin malloc_ok p callback context
  submit_to_index malloc_ok p (pos i) callback context =
      if not p.is_running
      then some (p, false)
      else if ltb i p.worker_pool_sz
      then submit_at malloc_ok p i callback context
      else submit_round_robin malloc_ok p callback context

  unfoldable pub pool_submit_to :
      (malloc_ok : Bool) → Option (Pool Q) → ℤ → Option ℕ → ℕ → Option (Option (Pool Q) × Bool)
  unfolding submit_to_index
  pool_submit_to malloc_ok none i callback context = some (none, false)
  pool_submit_to malloc_ok (some p) i none context = some (some p, false)
  pool_submit_to malloc_ok (some p) i (some f) context =
      elim (submit_to_index malloc_ok p i f context) [
        | none ↦ none
        | some (q, accepted) ↦ some (some q, accepted)
      ]

  -- The schedulers that `UfsrvSchedulerPoolDestroy` destroys, stopped and joined first where the
  -- pool is running; and what destroying each of them frees.
  abbrev stopped_and_joined : (Scheduler Q → Scheduler Q) → Pool Q → Pool Q
  stopped_and_joined pthread_join p =
      if p.is_running
      then (record p {
        workers = map (join_scheduler pthread_join) (map stop_scheduler p.workers);
        is_running = false;
      })
      else p

  unfoldable pub pool_destroy :
      (Scheduler Q → Scheduler Q) → Option (Pool Q) → List (Option (Destroyed mq))
  pool_destroy pthread_join none = []
  pool_destroy pthread_join (some p) =
      map (λ w. destroy mq pthread_join (some w)) (stopped_and_joined pthread_join p).workers
