-- ===== src/Scheduler/Pool/Share.antt =====
-- Which worker a job of the pool goes to, by UfsrvSchedulerPoolSubmit.
use ufsrvrxlib.Base.{
  ℕ, ◌+◌, ◌%◌, ◌^◌, ◌<◌, ◌≡◌, refl, sym, ap, ◌∙◌, true, Option, none, some, List, [], ◌∷◌, ◌++◌,
  arith, length, length-set, get_elem?, set, get_elem?-lt, get_elem?-set_self, get_elem?-set_ne,
  append_assoc, append-nil, ◌==◌, if◌then◌else◌,
}
use ufsrvrxlib.Scheduler.Queue.{MpscQueue}
use ufsrvrxlib.Scheduler.{Job, Scheduler, Call, submit_to_scheduler, write_event}
use ufsrvrxlib.Scheduler.Pool.{Pool, submit_round_robin}

module _ {Q : Type 0} (mq : MpscQueue Job Q) where
  abbrev pub job : Call → Job
  job c = record { callback = some c.0; callback_context = c.1 }

  -- A pool that was started: it has a worker for each index, and all run.
  pub record IsUp (p : Pool Q) : Type 0 where
    pub sized : length p.workers ≡ p.worker_pool_sz
    pub some_worker : 0 < p.worker_pool_sz
    pub pool_runs : p.is_running ≡ true
    pub workers_run :
        (i : ℕ) (w : Scheduler Q) → get_elem? p.workers i ≡ some w → w.is_running ≡ true

  -- What worker `i` has queued.
  abbrev pub queued : Pool Q → ℕ → List Job
  queued p i = elim (get_elem? p.workers i) [ none ↦ [] | some w ↦ mq.contents w.queue ]

  -- Submits in turn, each with its allocation granted.
  pub submit_all : Pool Q → List Call → Option (Pool Q)
  submit_all p [] = some p
  submit_all p (c ∷ cs) = elim (submit_round_robin mq true p c.0 c.1) [
    | none ↦ none
    | some (q, accepted) ↦ submit_all q cs
  ]

  -- The jobs among `cs` that fall to worker `i` of `n` when the counter stands at `next`.
  pub share : (n next i : ℕ) → List Call → List Job
  share n next i [] = []
  share n next i (c ∷ cs) =
      (if next % n == i then job c ∷ [] else []) ++ share n ((next + 1) % 2 ^ 32) i cs

  abbrev accept : Scheduler Q → Call → Scheduler Q
  accept w c = write_event (record w { queue = mq.insert w.queue (job c) })

  -- The pool after one submit that went to worker `w`.
  abbrev advance : Pool Q → Call → Scheduler Q → Pool Q
  advance p c w = record p {
    next = (p.next + 1) % 2 ^ 32;
    workers = set p.workers (p.next % p.worker_pool_sz) (accept w c);
  }

  submit_round_robin-IsUp :
      (p : Pool Q) (c : Call)
      → IsUp p
      → (w : Scheduler Q) × (get_elem? p.workers (p.next % p.worker_pool_sz) ≡ some w)
        × (submit_round_robin mq true p c.0 c.1 ≡ some (advance p c w, true))
  unfolding submit_round_robin submit_to_scheduler
  submit_round_robin-IsUp p c up =
      let (w, e) =
        get_elem?-lt p.workers (p.next % p.worker_pool_sz)
          (grind (arith, up.sized, up.some_worker)) in
      (w, e, ground (arith, up.workers_run (p.next % p.worker_pool_sz) w e))

  advance-IsUp :
      (p : Pool Q) (c : Call) (w : Scheduler Q)
      → get_elem? p.workers (p.next % p.worker_pool_sz) ≡ some w
      → IsUp p
      → IsUp (advance p c w)
  advance-IsUp p c w e up = record {
    sized = omega (arith, up.sized, length-set p.workers k (accept w c));
    some_worker = up.some_worker;
    pool_runs = up.pool_runs;
    workers_run = λ i v h. ground (
      arith,
      up.workers_run k w,
      up.workers_run i v,
      get_elem?-set_self p.workers k (accept w c),
      get_elem?-set_ne p.workers k i (accept w c),
      in_range,
    );
  }
    where
      k : ℕ
      k = p.next % p.worker_pool_sz

      in_range : k < length p.workers
      in_range = grind (arith, up.sized, up.some_worker)

  queued-advance :
      (p : Pool Q) (c : Call) (w : Scheduler Q) (i : ℕ)
      → get_elem? p.workers (p.next % p.worker_pool_sz) ≡ some w
      → IsUp p
      → queued (advance p c w) i
        ≡ queued p i ++ (if p.next % p.worker_pool_sz == i then job c ∷ [] else [])
  queued-advance p c w i e up = ground (
    arith,
    get_elem?-set_self p.workers k (accept w c),
    get_elem?-set_ne p.workers k i (accept w c),
    in_range,
    mq.contents-insert w.queue (job c),
    append-nil (queued p i),
  )
    where
      k : ℕ
      k = p.next % p.worker_pool_sz

      in_range : k < length p.workers
      in_range = grind (arith, up.sized, up.some_worker)

  -- A started pool takes any run of submits, its counter wrapping at 2 ^ 32, with no access out of
  -- bounds; each worker's queue grows by exactly its share of the jobs, in the order of the submits,
  -- and the pool is still up.
  pub submit_all-share :
      (p : Pool Q) (cs : List Call)
      → IsUp p
      → (q : Pool Q) × (submit_all p cs ≡ some q)
        × IsUp q
        × (q.worker_pool_sz ≡ p.worker_pool_sz)
        × ((i : ℕ) → queued q i ≡ queued p i ++ share p.worker_pool_sz p.next i cs)
  unfolding submit_all share
  submit_all-share p [] up = (p, refl, up, refl, λ i. sym (append-nil (queued p i)))
  submit_all-share p (c ∷ cs) up =
      let (w, e, r) = submit_round_robin-IsUp p c up in
      let (q, s, u, n, same) = submit_all-share (advance p c w) cs (advance-IsUp p c w e up) in
      (
        q,
        rw (r, submit_all) s,
        u,
        n,
        λ i.
            same i
            ∙ ap (λ l. l ++ share p.worker_pool_sz ((p.next + 1) % 2 ^ 32) i cs)
                (queued-advance p c w i e up)
            ∙ append_assoc (queued p i) _ _,
      )
