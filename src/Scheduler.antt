-- ===== src/Scheduler.antt =====
-- src/ufsrv_scheduler/ufsrv_scheduler.c and ufsrv_scheduler_priv.h: one scheduler and its calls, as
-- functions on its state. A pointer argument that may be NULL is an Option; what malloc, strdup,
-- eventfd and pthread_create answer is an argument.
pub mod Queue
pub mod Drain
pub mod Worker
pub mod Order
pub mod Serve
pub mod Wakeup
pub mod Rest
pub mod Pool
pub mod Describe
pub mod Names
use ufsrvrxlib.Base.{
  ℕ, zero, suc, ◌+◌, Bool, true, false, not, ◌&&◌, Option, none, some, List, [], ◌∷◌, ◌++◌, ◌==◌,
  if◌then◌else◌, length,
}
use Queue.{MpscQueue}

-- A callback is named by its address. `none` is NULL.
pub record Job : Type 0 where
  pub callback : Option ℕ
  pub callback_context : ℕ

-- `event_count` is the kernel's counter behind `event_fd`.
pub record Scheduler (Q : Type 0) : Type 0 where
  pub queue : Q
  pub event_fd : ℕ
  pub event_count : ℕ
  pub name : Option (List ℕ)
  pub is_running : Bool
  pub is_started : Bool
  pub is_joined : Bool
  pub is_worker_id_ready : Bool
  pub worker_id : ℕ

-- A call of a callback on its context.
abbrev pub Call : Type 0
Call = ℕ × ℕ

-- What `sRunJob` calls.
abbrev pub call_of : Job → List Call
call_of j = elim j.callback [ none ↦ [] | some f ↦ (f, j.callback_context) ∷ [] ]

-- `sRunJob`, over the trace of the calls made so far.
unfoldable pub run_job : Job → List Call → List Call
run_job j calls = calls ++ call_of j

-- The return values 0 and -1.
pub data Status : Type 0 where
  success failure : Status

module _ {Q : Type 0} where
  -- `write(event_fd, &one, sizeof(one))`.
  abbrev pub write_event : Scheduler Q → Scheduler Q
  write_event s = record s { event_count = s.event_count + 1 }

  -- The bodies behind the tests for NULL.
  unfoldable pub start_scheduler : (create_ok : Bool) → Scheduler Q → Scheduler Q × Status
  start_scheduler create_ok s =
      if s.is_started
      then (s, failure)
      else if create_ok
      then (record s { is_running = true; is_started = true }, success)
      else (record s { is_running = false }, failure)

  unfoldable pub stop_scheduler : Scheduler Q → Scheduler Q
  stop_scheduler s = write_event (record s { is_running = false })

  -- `pthread_join` is what the scheduler is once its worker thread has returned.
  unfoldable pub join_scheduler :
      (pthread_join : Scheduler Q → Scheduler Q) → Scheduler Q → Scheduler Q
  join_scheduler pthread_join s =
      if not s.is_started
      then s
      else if s.is_joined
      then s
      else pthread_join (record s { is_joined = true })

  unfoldable pub start : (create_ok : Bool) → Option (Scheduler Q) → Option (Scheduler Q) × Status
  unfolding start_scheduler
  start create_ok none = (none, failure)
  start create_ok (some s) = let (t, r) = start_scheduler create_ok s in (some t, r)

  unfoldable pub stop : Option (Scheduler Q) → Option (Scheduler Q)
  unfolding stop_scheduler
  stop none = none
  stop (some s) = some (stop_scheduler s)

  unfoldable pub join :
      (pthread_join : Scheduler Q → Scheduler Q) → Option (Scheduler Q) → Option (Scheduler Q)
  unfolding join_scheduler
  join pthread_join none = none
  join pthread_join (some s) = some (join_scheduler pthread_join s)

  -- `self` is `pthread_self()`.
  unfoldable pub is_worker_thread : (self : ℕ) → Option (Scheduler Q) → Bool
  is_worker_thread self none = false
  is_worker_thread self (some s) = if not s.is_worker_id_ready then false else self == s.worker_id

module _ {Q : Type 0} (mq : MpscQueue Job Q) where
  unfoldable pub create :
      (calloc_ok strdup_ok : Bool) (eventfd : Option ℕ) → Option (List ℕ) → Option (Scheduler Q)
  create false strdup_ok eventfd name = none
  create true false eventfd (some name) = none
  create true strdup_ok none name = none
  create true strdup_ok (some fd) name = some (record {
    queue = mq.init;
    event_fd = fd;
    event_count = 0;
    name = name;
    is_running = false;
    is_started = false;
    is_joined = false;
    is_worker_id_ready = false;
    worker_id = 0;
  })

  -- `sSubmitToScheduler`: allocate, test `is_running`, insert, wake the worker.
  unfoldable pub submit_to_scheduler : (malloc_ok : Bool) → Scheduler Q → Job → Scheduler Q × Bool
  submit_to_scheduler malloc_ok s j =
      if not malloc_ok
      then (s, false)
      else if not s.is_running
      then (s, false)
      else (write_event (record s { queue = mq.insert s.queue j }), true)

  unfoldable pub submit :
      (malloc_ok : Bool) → Option (Scheduler Q) → Option ℕ → ℕ → Option (Scheduler Q) × Bool
  unfolding submit_to_scheduler
  submit malloc_ok none callback context = (none, false)
  submit malloc_ok (some s) none context = (some s, false)
  submit malloc_ok (some s) (some f) context =
      let (s', accepted) =
        submit_to_scheduler malloc_ok s
          (record { callback = some f; callback_context = context }) in
      (some s', accepted)

  -- The loop of `UfsrvSchedulerDestroy`: the jobs that it frees, none of them called. `none` means
  -- that the fuel ran out.
  pub drain : ℕ → Q → Option (List Job)
  drain zero q = none
  drain (suc k) q = elim (mq.pop q) [
    | none ↦ some []
    | some (j, r) ↦ elim (drain k r) [ none ↦ none | some js ↦ some (j ∷ js) ]
  ]

  -- What `UfsrvSchedulerDestroy` does: the scheduler as it is stopped and joined, if it was still
  -- running, the jobs freed, and the descriptor closed.
  pub record Destroyed : Type 0 where
    pub last : Scheduler Q
    pub freed : List Job
    pub closed : ℕ

  stop_and_join : (Scheduler Q → Scheduler Q) → Scheduler Q → Scheduler Q
  unfolding stop_scheduler join_scheduler
  stop_and_join pthread_join s =
      if s.is_started && not s.is_joined then join_scheduler pthread_join (stop_scheduler s) else s

  abbrev release : Scheduler Q → Option Destroyed
  release s = elim (drain (suc (length (mq.contents s.queue))) s.queue) [
    | none ↦ none
    | some js ↦ some (record { last = s; freed = js; closed = s.event_fd })
  ]

  unfoldable pub destroy : (Scheduler Q → Scheduler Q) → Option (Scheduler Q) → Option Destroyed
  unfolding stop_and_join drain
  destroy pthread_join none = none
  destroy pthread_join (some s) = release (stop_and_join pthread_join s)
