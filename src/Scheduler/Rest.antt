-- ===== src/Scheduler/Rest.antt =====
-- The worker left alone, with no step of another thread.
use ufsrvrxlib.Base.{
  ℕ, zero, suc, ◌≤◌, ◌≡◌, refl, ap, ◌∙◌, ◌⊎◌, inl, inr, none, some, [], arith, true, append-nil,
  Option-cases,
}
use ufsrvrxlib.Scheduler.Queue.{MpscQueue}
use ufsrvrxlib.Scheduler.{Job}
use ufsrvrxlib.Scheduler.Worker.{
  Pc, entry, popping, reading, draining, done, System, next_at, work, Reach, later, worker_next,
  run_worker,
}
use ufsrvrxlib.Scheduler.Order.{calls_of, IsInOrder, Reach-IsInOrder}
use ufsrvrxlib.Scheduler.Wakeup.{
  IsDone, IsReading, fuel_for, worker_next-fuel, IsAwake, Reach-IsAwake,
}

module _ {Q : Type 0} (mq : MpscQueue Job Q) where
  -- What the worker's own actions leave alone.
  record Alone (s t : System Q) : Type 0 where
    waking : t.waking ≡ s.waking
    stopping : t.stopping ≡ s.stopping
    inserted : t.inserted ≡ s.inserted
    drained : IsDone t.worker → mq.contents t.sched.queue ≡ []

  next_at-Alone : (self : ℕ) (s t : System Q) (w : Pc) → next_at mq self w s ≡ some t → Alone s t
  unfolding next_at
  next_at-Alone self s t entry h = ground arith
  next_at-Alone self s t popping h = ground (arith, mq.pop_cases s.sched.queue)
  next_at-Alone self s t draining h = ground (arith, mq.pop_cases s.sched.queue)
  next_at-Alone self s t w h = ground arith

  record Rested (self : ℕ) (s t : System Q) : Type 0 where
    rests : worker_next mq self t ≡ none
    reach : Reach mq self t
    alone : Alone s t

  Alone-trans : {s t u : System Q} → Alone s t → Alone t u → Alone s u
  Alone-trans a b = ground arith

  run_worker-Rested :
      (self k : ℕ) (s : System Q)
      → Reach mq self s
      → (IsDone s.worker → mq.contents s.sched.queue ≡ [])
      → fuel_for mq s ≤ k
      → Rested self s (run_worker mq self k s)
  unfolding run_worker
  run_worker-Rested self zero s r d h = elim (Option-cases (worker_next mq self s)) [
    | inl e ↦ record {
      rests = e;
      reach = r;
      alone = record { waking = refl; stopping = refl; inserted = refl; drained = d };
    }
    | inr (t, e) ↦ absurd (omega (arith, worker_next-fuel mq self s t e))
  ]
  run_worker-Rested self (suc k) s r d h = elim (Option-cases (worker_next mq self s)) [
    | inl e ↦
        rw (e, run_worker)
          (record {
            rests = e;
            reach = r;
            alone = record { waking = refl; stopping = refl; inserted = refl; drained = d };
          })
    | inr (t, e) ↦
        let a : Alone s t = next_at-Alone self s t s.worker e in
        let rest : Rested self t (run_worker mq self k t) =
          run_worker-Rested self k t (later r (work e)) a.drained
            (omega (arith, worker_next-fuel mq self s t e)) in
        rw (e, run_worker)
          (record { rests = rest.rests; reach = rest.reach; alone = Alone-trans a rest.alone })
  ]

  -- Blocked in `read`, with the scheduler running; or returned.
  abbrev pub IsAtRest : System Q → Type 0
  IsAtRest t = IsDone t.worker ⊎ (IsReading t.worker × (t.sched.is_running ≡ true))

  rest_at :
      (self : ℕ) (t : System Q) (p : Pc)
      → p ≡ t.worker
      → next_at mq self p t ≡ none
      → IsInOrder mq t
      → IsAwake mq t
      → (IsDone t.worker → mq.contents t.sched.queue ≡ [])
      → t.waking ≡ 0
      → t.stopping ≡ 0
      → (t.calls ≡ calls_of t.inserted) × IsAtRest t
  unfolding next_at
  rest_at self t done p e o a d w z = ground (arith, append-nil t.calls)
  rest_at self t reading p e o a d w z = ground (arith, append-nil t.calls)
  rest_at self t q p e o a d w z = ground arith

  -- From every reachable state in which the worker has not returned and no thread stands between
  -- its change and its write to the event descriptor, the worker alone, given `fuel_for` actions
  -- or more, comes to rest: it has then called every inserted job once, in order of insertion, and
  -- it has returned, or is blocked in `read` while the scheduler is still running.
  pub comes_to_rest :
      (self k : ℕ) (s : System Q)
      → Reach mq self s
      → ¬ IsDone s.worker
      → s.waking ≡ 0
      → s.stopping ≡ 0
      → fuel_for mq s ≤ k
      → ((run_worker mq self k s).calls ≡ calls_of s.inserted) × IsAtRest (run_worker mq self k s)
  comes_to_rest self k s r nd w z h =
      let (called, at_rest) =
        rest_at self (run_worker mq self k s) (run_worker mq self k s).worker refl rested.rests
          (Reach-IsInOrder mq rested.reach) (Reach-IsAwake mq rested.reach) rested.alone.drained
          (rested.alone.waking ∙ w) (rested.alone.stopping ∙ z) in
      (called ∙ ap calls_of rested.alone.inserted, at_rest)
    where
      rested : Rested self s (run_worker mq self k s)
      rested = run_worker-Rested self k s r (λ d. absurd (nd d)) h
