-- ===== src/Scheduler/Pool/Start.antt =====
-- UfsrvSchedulerPoolStart and PoolStop: which workers run.
use ufsrvrxlib.Base.{
  ℕ, ◌+◌, ◌<◌, ◌≡◌, refl, inl, inr, if◌then◌else◌, length-append, Bool, true, false, Option, none,
  some, List, [], ◌∷◌, ◌++◌, map, arith, length, length-map, All, All-append, All-map, All-imp,
  Bool-cases,
}
use ufsrvrxlib.Scheduler.Queue.{MpscQueue}
use ufsrvrxlib.Scheduler.{Job, Scheduler, Status, success, failure, start_scheduler, stop_scheduler}
use ufsrvrxlib.Base.Int.{ℤ, pos, negsuc}
use ufsrvrxlib.Scheduler.Pool.{
  Pool, start_workers, finish_start, pool_start, pool_stop, pool_submit, pool_submit_to,
}

module _ {Q : Type 0} where
  -- Made and never started.
  abbrev pub Idle : Scheduler Q → Type 0
  Idle w = (w.is_running ≡ false) × (w.is_started ≡ false)

  abbrev pub Runs : Scheduler Q → Type 0
  Runs w = (w.is_running ≡ true) × (w.is_started ≡ true)

  abbrev pub Halted : Scheduler Q → Type 0
  Halted w = w.is_running ≡ false

  stop_scheduler-Halted : (w : Scheduler Q) → Halted (stop_scheduler w)
  unfolding stop_scheduler
  stop_scheduler-Halted w = refl

  abbrev started : Scheduler Q → Scheduler Q
  started w = record w { is_running = true; is_started = true }

  start_scheduler-Idle :
      (ok : Bool) (w : Scheduler Q)
      → Idle w
      → start_scheduler ok w
        ≡ (if ok then (started w, success) else (record w { is_running = false }, failure))
  unfolding start_scheduler
  start_scheduler-Idle ok w d = rw (d.1) refl

  -- What starting the workers of a pool of `n` may come to.
  abbrev pub Startup : (ℕ → Bool) → ℕ → List (Scheduler Q) × Status → Type 0
  Startup ok n (ws, success) = All Runs ws × (length ws ≡ n) × ((j : ℕ) → j < n → ok j ≡ true)
  Startup ok n (ws, failure) =
      All Halted ws × (length ws ≡ n) × ((j : ℕ) × (j < n) × (ok j ≡ false))

  start_workers-Startup :
      (ok : ℕ → Bool) (n : ℕ) (front back : List (Scheduler Q))
      → length front + length back ≡ n
      → All Runs front
      → All Idle back
      → ((j : ℕ) → j < length front → ok j ≡ true)
      → Startup ok n (start_workers ok (length front) front back)
  unfolding start_workers
  start_workers-Startup ok n front [] e r d g = (r, omega arith, λ j h. g j (omega arith))
  start_workers-Startup ok n front (w ∷ ws) e r d g = elim (Bool-cases (ok (length front))) [
    | inl y ↦
        rw (idle, start_workers, y)
          (rw (idle, y)
            (rw (← grown (started w)) (
              start_workers-Startup ok n (front ++ started w ∷ []) ws
                (omega (arith, grown (started w)))
                (All-append Runs front (started w ∷ []) r ((refl, refl), tt)) d.1
                λ j h. ground (arith, g j, grown (started w), y))))
    | inr z ↦
        rw (idle, start_workers, z)
          (rw (idle, z)
            (
              All-append Halted (map stop_scheduler front) _
                  (All-map Halted stop_scheduler stop_scheduler-Halted front)
                  (refl, All-imp Idle Halted (λ v h. h.0) ws d.1),
              omega (
                arith,
                length-append (map stop_scheduler front) (record w { is_running = false } ∷ ws),
                length-map stop_scheduler front,
              ),
              (length front, omega arith, z),
            ))
  ]
    where
      idle : start_scheduler (ok (length front)) w ≡ (
          if ok (length front)
          then (started w, success)
          else (record w { is_running = false }, failure))
      idle = start_scheduler-Idle (ok (length front)) w d.0

      grown : (v : Scheduler Q) → length (front ++ v ∷ []) ≡ length front + 1
      grown v = omega (arith, length-append front (v ∷ []))

  -- What `UfsrvSchedulerPoolStart` may come to, for a pool `p` of which nothing was started.
  abbrev pub Started : (ℕ → Bool) → Pool Q → Option (Pool Q) × Status → Type 0
  Started ok p (none, r) = ⊥
  Started ok p (some q, success) =
      (q.is_running ≡ true)
      × All Runs q.workers
      × (length q.workers ≡ length p.workers)
      × ((j : ℕ) → j < length p.workers → ok j ≡ true)
  Started ok p (some q, failure) =
      (q.is_running ≡ p.is_running)
      × All Halted q.workers
      × (length q.workers ≡ length p.workers)
      × ((j : ℕ) × (j < length p.workers) × (ok j ≡ false))

  finish_start-Started :
      (ok : ℕ → Bool) (p : Pool Q) (r : List (Scheduler Q) × Status)
      → Startup ok (length p.workers) r
      → Started ok p (finish_start p r)
  unfolding finish_start
  finish_start-Started ok p (ws, success) h = (refl, h.0, h.1, h.2)
  finish_start-Started ok p (ws, failure) h = (refl, h.0, h.1, h.2)

  -- `UfsrvSchedulerPoolStart` on a pool of which nothing was started: it succeeds exactly when every
  -- thread can be created, and then the pool and all its workers run; when one cannot be created it
  -- fails, and leaves every worker halted, those that it had started too.
  pub pool_start-Started :
      (ok : ℕ → Bool) (p : Pool Q) → All Idle p.workers → Started ok p (pool_start ok (some p))
  unfolding pool_start
  pool_start-Started ok p d = finish_start-Started ok p (start_workers ok 0 [] p.workers) (
      start_workers-Startup ok (length p.workers) [] p.workers (omega arith) tt d
        (λ j h. absurd (omega arith)))

  -- After `UfsrvSchedulerPoolStop` no worker runs, and the pool accepts no job: a submit to it, or
  -- to any index of it, changes nothing and returns false.
  pub pool_stop_refuses :
      (mq : MpscQueue Job Q) (p : Pool Q) (ok : Bool) (i : ℤ) (callback : Option ℕ) (context : ℕ)
      → let q = pool_stop (some p) in
        ((r : Pool Q) × (q ≡ some r) × All Halted r.workers)
        × (pool_submit mq ok q callback context ≡ some (q, false))
        × (pool_submit_to mq ok q i callback context ≡ some (q, false))
  unfolding pool_stop pool_submit pool_submit_to
  pool_stop_refuses mq p ok i none context =
      ((_, refl, All-map Halted stop_scheduler stop_scheduler-Halted p.workers), refl, refl)
  pool_stop_refuses mq p ok (pos i) (some f) context =
      ((_, refl, All-map Halted stop_scheduler stop_scheduler-Halted p.workers), refl, refl)
  pool_stop_refuses mq p ok (negsuc i) (some f) context =
      ((_, refl, All-map Halted stop_scheduler stop_scheduler-Halted p.workers), refl, refl)
