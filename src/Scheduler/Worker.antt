-- ===== src/Scheduler/Worker.antt =====
-- The worker thread of ufsrv_scheduler.c (`sWorkerMain`) beside threads that submit and stop, at the
-- grain of their accesses to shared memory, in any interleaving.
use ufsrvrxlib.Base.{
  ℕ, zero, suc, ◌+◌, ◌≡◌, true, false, Option, none, some, List, [], ◌∷◌, ◌++◌, ◌==◌, if◌then◌else◌,
}
use ufsrvrxlib.Scheduler.Queue.{MpscQueue}
use ufsrvrxlib.Scheduler.{Job, Scheduler, Call, run_job, write_event}

-- Where the worker stands: at the loop's test, before `mpsc_queue_pop`, with a job in hand, at the
-- second test, in `read`, in the final drain, with a job of that drain in hand, returned.
pub data Pc : Type 0 where
  entry top popping : Pc
  running : Job → Pc
  empty reading draining : Pc
  final : Job → Pc
  done : Pc

-- `checked` holds the jobs whose submitter has passed the test of `is_running` and has not inserted
-- yet; `waking` and `stopping` count the threads that have inserted, or have cleared `is_running`,
-- and have not written to the event descriptor yet. `inserted` is the history of the queue.
pub record System (Q : Type 0) : Type 0 where
  pub sched : Scheduler Q
  pub worker : Pc
  pub calls : List Call
  pub checked : List Job
  pub waking : ℕ
  pub stopping : ℕ
  pub inserted : List Job

module _ {Q : Type 0} (mq : MpscQueue Job Q) where
  abbrev pub moved : System Q → Pc → System Q
  moved s p = record s { worker = p }

  abbrev pub with_sched : System Q → Scheduler Q → System Q
  with_sched s c = record s { sched = c }

  abbrev pub popped : System Q → (Job → Pc) → Pc → System Q
  popped s p q = elim (mq.pop s.sched.queue) [
    | none ↦ moved s q
    | some (j, r) ↦ moved (with_sched s (record (s.sched) { queue = r })) (p j)
  ]

  abbrev pub called : System Q → Job → System Q
  called s j = record s { calls = run_job j s.calls }

  -- The worker's next action from `p`; `none` where it is blocked in `read`, or has returned.
  unfoldable pub next_at : (self : ℕ) → Pc → System Q → Option (System Q)
  next_at self entry s =
      some (
        moved (with_sched s (record (s.sched) { worker_id = self; is_worker_id_ready = true })) top)
  next_at self top s = some (moved s (if s.sched.is_running then popping else draining))
  next_at self popping s = some (popped s running empty)
  next_at self (running j) s = some (moved (called s j) top)
  next_at self empty s = some (moved s (if s.sched.is_running then reading else draining))
  next_at self reading s =
      if s.sched.event_count == 0
      then none
      else some (moved (with_sched s (record (s.sched) { event_count = 0 })) top)
  next_at self draining s = some (popped s final done)
  next_at self (final j) s = some (moved (called s j) draining)
  next_at self done s = none

  abbrev pub worker_next : (self : ℕ) → System Q → Option (System Q)
  worker_next self s = next_at self s.worker s

  -- `mpsc_queue_insert` by a thread that holds `j`; `rest` are the other threads' jobs.
  abbrev pub inserted_job : System Q → Job → List Job → System Q
  inserted_job s j rest = record s {
    sched = record (s.sched) { queue = mq.insert s.sched.queue j };
    checked = rest;
    waking = s.waking + 1;
    inserted = s.inserted ++ j ∷ [];
  }

  pub data Step (self : ℕ) (s t : System Q) : Type 0 where
    work : worker_next self s ≡ some t → Step self s t
    interrupted : s.worker ≡ reading → t ≡ moved s top → Step self s t
    read_failed : s.worker ≡ reading → t ≡ moved s draining → Step self s t
    check :
        (j : Job)
        → s.sched.is_running ≡ true
        → t ≡ record s { checked = j ∷ s.checked }
        → Step self s t
    insert :
        (xs ys : List Job) (j : Job)
        → s.checked ≡ xs ++ j ∷ ys
        → t ≡ inserted_job s j (xs ++ ys)
        → Step self s t
    wake :
        (n : ℕ)
        → s.waking ≡ suc n
        → t ≡ record s { sched = write_event s.sched; waking = n }
        → Step self s t
    stop_store :
        t ≡ record s { sched = record (s.sched) { is_running = false }; stopping = s.stopping + 1 }
        → Step self s t
    stop_wake :
        (n : ℕ)
        → s.stopping ≡ suc n
        → t ≡ record s { sched = write_event s.sched; stopping = n }
        → Step self s t

  -- The state once `UfsrvSchedulerStart` has made the thread, for a scheduler with an empty queue.
  abbrev pub launched : Scheduler Q → System Q
  launched c = record {
    sched = record c { is_running = true };
    worker = entry;
    calls = [];
    checked = [];
    waking = 0;
    stopping = 0;
    inserted = [];
  }

  pub data Reach (self : ℕ) : System Q → Type 0 where
    here : (c : Scheduler Q) → mq.contents c.queue ≡ [] → Reach self (launched c)
    later : {s t : System Q} → Reach self s → Step self s t → Reach self t

  -- The worker alone, for at most `k` actions.
  unfoldable pub run_worker : (self : ℕ) → ℕ → System Q → System Q
  run_worker self zero s = s
  run_worker self (suc k) s = elim (worker_next self s) [ none ↦ s | some t ↦ run_worker self k t ]
