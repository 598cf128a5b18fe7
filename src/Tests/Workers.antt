-- ===== src/Tests/Workers.antt =====
-- One scheduler whose queue is a list: a job is submitted and the worker runs.
use ufsrvrxlib.Base.{◌≡◌, refl, true, false, none, some, List, [], ◌∷◌, arith}
use ufsrvrxlib.Scheduler.Queue.{MpscQueue, list_queue}
use ufsrvrxlib.Scheduler.{Job, Scheduler, destroy, write_event}
use ufsrvrxlib.Scheduler.Drain.{last_state, destroy_frees}
use ufsrvrxlib.Scheduler.Worker.{
  System, inserted_job, check, insert, wake, launched, Reach, here, later, run_worker,
}
use ufsrvrxlib.Scheduler.Order.{IsInOrder, Reach-IsInOrder}
use ufsrvrxlib.Scheduler.Serve.{Served, server_of, Reach-Served}
use ufsrvrxlib.Scheduler.Wakeup.{fuel_for, IsAwake, Reach-IsAwake}
use ufsrvrxlib.Scheduler.Rest.{IsAtRest, comes_to_rest}

abbrev job : Job
job = record { callback = some 100; callback_context = 7 }

abbrev sched : Scheduler (List Job)
sched = record {
  queue = [];
  event_fd = 5;
  event_count = 0;
  name = none;
  is_running = false;
  is_started = true;
  is_joined = false;
  is_worker_id_ready = false;
  worker_id = 0;
}

abbrev mq : MpscQueue Job (List Job)
mq = list_queue

abbrev checked : System (List Job)
checked = record (launched mq sched) { checked = job ∷ [] }

abbrev inserted : System (List Job)
inserted = inserted_job mq checked job []

abbrev woken : System (List Job)
woken = record inserted { sched = write_event inserted.sched; waking = 0 }

abbrev woken_reached : Reach mq 9 woken
woken_reached =
    later (later (later (here sched refl) (check job refl refl)) (insert [] [] job refl refl))
      (wake 0 refl refl)

Reach-IsInOrder_example : IsInOrder mq woken
Reach-IsInOrder_example = Reach-IsInOrder mq {self = 9} {s = woken} woken_reached

Reach-Served_example : Served (server_of mq woken)
Reach-Served_example = Reach-Served mq {self = 9} {s = woken} woken_reached

Reach-IsAwake_example : IsAwake mq woken
Reach-IsAwake_example = Reach-IsAwake mq {self = 9} {s = woken} woken_reached

comes_to_rest_example :
    ((run_worker mq 9 40 woken).calls ≡ (100, 7) ∷ []) × IsAtRest mq (run_worker mq 9 40 woken)
unfolding fuel_for
comes_to_rest_example = comes_to_rest mq 9 40 woken woken_reached (λ d. d) refl refl (omega arith)

abbrev leftover : Scheduler (List Job)
leftover = record sched { queue = job ∷ job ∷ []; is_running = true }

abbrev worker_returns : Scheduler (List Job) → Scheduler (List Job)
worker_returns s = record s { worker_id = 9 }

destroy_frees_example :
    destroy mq worker_returns (some leftover)
    ≡ some (record {
      last = last_state mq worker_returns leftover;
      freed = job ∷ job ∷ [];
      closed = 5;
    })
destroy_frees_example = destroy_frees mq worker_returns leftover
