-- ===== src/Tests/Pools.antt =====
-- A pool of two workers: made, started, submitted to and stopped; and the names of its workers.
use ufsrvrxlib.Base.{
  ℕ, zero, suc, ◌+◌, ◌≡◌, refl, Bool, true, false, Option, none, some, List, [], ◌∷◌, ◌++◌, arith,
}
use ufsrvrxlib.Base.Int.{pos}
use ufsrvrxlib.Scheduler.Queue.{MpscQueue, list_queue}
use ufsrvrxlib.Scheduler.{Job, Scheduler}
use ufsrvrxlib.Scheduler.Pool.{
  Pool, Resources, pool_create, pool_start, pool_stop, pool_submit, pool_submit_to,
}
use ufsrvrxlib.Scheduler.Pool.Lifecycle.{Outcome, pool_create-Outcome}
use ufsrvrxlib.Scheduler.Pool.Start.{Started, Halted, pool_start-Started, pool_stop_refuses}
use ufsrvrxlib.Scheduler.Pool.Share.{IsUp, queued, submit_all, share, submit_all-share}
use ufsrvrxlib.Scheduler.Names.{Memory, Collection, list_workers}
use ufsrvrxlib.Scheduler.Names.Slab.{Holds, elements, names_of, strings_at, list_workers-Holds}
use ufsrvrxlib.Base.{All, get_elem?, ◌<◌}

abbrev pool_mq : MpscQueue Job (List Job)
pool_mq = list_queue

abbrev numbered : Option (List ℕ) → ℕ → List ℕ
numbered prefix i = (48 + i) ∷ []

abbrev resources : ℕ → Resources
resources i = record { calloc_ok = true; strdup_ok = true; eventfd = some (i + 3) }

pool_create-Outcome_example :
    Outcome pool_mq numbered resources none 2
      (pool_create pool_mq numbered true true resources (pos 2) none)
pool_create-Outcome_example = pool_create-Outcome pool_mq numbered resources none 1

abbrev worker : ℕ → Bool → Scheduler (List Job)
worker i runs = record {
  queue = [];
  event_fd = i + 3;
  event_count = 0;
  name = some ((48 + i) ∷ []);
  is_running = runs;
  is_started = runs;
  is_joined = false;
  is_worker_id_ready = false;
  worker_id = 0;
}

abbrev idle_pool : Pool (List Job)
idle_pool = record {
  workers = worker 0 false ∷ worker 1 false ∷ [];
  worker_pool_sz = 2;
  next = 0;
  is_running = false;
}

abbrev second_fails : ℕ → Bool
second_fails zero = true
second_fails (suc i) = false

pool_start-Started_example :
    Started second_fails idle_pool (pool_start second_fails (some idle_pool))
pool_start-Started_example =
    pool_start-Started second_fails idle_pool ((refl, refl), ((refl, refl), tt))

-- The counter stands right before its wrap.
abbrev up_pool : Pool (List Job)
up_pool = record {
  workers = worker 0 true ∷ worker 1 true ∷ [];
  worker_pool_sz = 2;
  next = 4294967295;
  is_running = true;
}

pool_stop_refuses_example :
    let q = pool_stop (some up_pool) in
    ((r : Pool (List Job)) × (q ≡ some r) × All Halted r.workers)
    × (pool_submit pool_mq true q (some 100) 7 ≡ some (q, false))
    × (pool_submit_to pool_mq true q (pos 1) (some 100) 7 ≡ some (q, false))
pool_stop_refuses_example = pool_stop_refuses pool_mq up_pool true (pos 1) (some 100) 7

up_pool-workers_run :
    (i : ℕ) (w : Scheduler (List Job)) → get_elem? up_pool.workers i ≡ some w → w.is_running ≡ true
up_pool-workers_run zero w e = cc
up_pool-workers_run (suc zero) w e = cc
up_pool-workers_run (suc (suc i)) w e = cc

up_pool-IsUp : IsUp pool_mq up_pool
up_pool-IsUp = record {
  sized = refl;
  some_worker = omega arith;
  pool_runs = refl;
  workers_run = up_pool-workers_run;
}

submit_all-share_example :
    (q : Pool (List Job)) × (submit_all pool_mq up_pool ((100, 7) ∷ (101, 8) ∷ (102, 9) ∷ [])
      ≡ some q)
    × IsUp pool_mq q
    × (q.worker_pool_sz ≡ 2)
    × ((i : ℕ)
        → queued pool_mq q i
          ≡ queued pool_mq up_pool i
            ++ share pool_mq 2 4294967295 i ((100, 7) ∷ (101, 8) ∷ (102, 9) ∷ []))
submit_all-share_example =
    submit_all-share pool_mq up_pool ((100, 7) ∷ (101, 8) ∷ (102, 9) ∷ []) up_pool-IsUp

abbrev zeros : Memory
zeros x = 0

list_workers-Holds_example :
    (c : Collection) × (list_workers 24 8 true zeros (some up_pool) ≡ some c)
    × (c.collection_sz ≡ 2)
    × Holds c.memory (strings_at 24 8 c) c.total (elements c) (names_of up_pool.workers)
    × ((x : ℕ) → x < strings_at 24 8 c → c.memory x ≡ 0)
unfolding names_of
list_workers-Holds_example = list_workers-Holds 24 8 zeros up_pool
