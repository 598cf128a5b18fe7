-- ===== src/Scheduler/Wakeup.antt =====
-- The worker's sleep in `read` on the event descriptor, and a measure of what it has left to do.
use ufsrvrxlib.Base.{
  ℕ, ◌+◌, ◌*◌, ◌<◌, ◌≡◌, refl, ap, inl, inr, some, [], arith, true, if◌then◌else◌, length, ◌==◌,
}
use ufsrvrxlib.Scheduler.Queue.{MpscQueue}
use ufsrvrxlib.Scheduler.{Job}
use ufsrvrxlib.Scheduler.Worker.{
  Pc, entry, top, popping, running, empty, reading, draining, final, done, System, next_at, popped,
  Step, work, interrupted, read_failed, check, insert, wake, stop_store, stop_wake, Reach, here,
  later, worker_next,
}

-- Between the pop that found nothing and the read.
abbrev pub IsDrowsy : Pc → Type 0
IsDrowsy empty = Unit {0}
IsDrowsy reading = Unit {0}
IsDrowsy _ = ⊥

abbrev pub IsReading : Pc → Type 0
IsReading reading = Unit {0}
IsReading _ = ⊥

abbrev pub IsDone : Pc → Type 0
IsDone done = Unit {0}
IsDone _ = ⊥

module _ {Q : Type 0} (mq : MpscQueue Job Q) where
  pub record IsAwake (s : System Q) : Type 0 where
    pub queued :
        IsDrowsy s.worker → s.sched.event_count ≡ 0 → s.waking ≡ 0 → mq.contents s.sched.queue ≡ []
    pub stopped :
        IsReading s.worker → s.sched.event_count ≡ 0 → s.stopping ≡ 0 → s.sched.is_running ≡ true

  next_at-IsAwake :
      (self : ℕ) (s t : System Q) (w : Pc)
      → w ≡ s.worker
      → next_at mq self w s ≡ some t
      → IsAwake s
      → IsAwake t
  unfolding next_at
  next_at-IsAwake self s t entry e h v = ground arith
  next_at-IsAwake self s t top e h v = ground arith
  next_at-IsAwake self s t popping e h v = ground (arith, mq.pop_cases s.sched.queue)
  next_at-IsAwake self s t (running j) e h v = ground arith
  next_at-IsAwake self s t empty e h v = ground arith
  next_at-IsAwake self s t reading e h v = ground arith
  next_at-IsAwake self s t draining e h v = ground (arith, mq.pop_cases s.sched.queue)
  next_at-IsAwake self s t (final j) e h v = ground arith
  next_at-IsAwake self s t done e h v = ground arith

  pub Step-IsAwake : (self : ℕ) (s t : System Q) → Step mq self s t → IsAwake s → IsAwake t
  Step-IsAwake self s t (work h) v = next_at-IsAwake self s t s.worker refl h v
  Step-IsAwake self s t (interrupted w e) v = ground arith
  Step-IsAwake self s t (read_failed w e) v = ground arith
  Step-IsAwake self s t (check j h e) v = ground arith
  Step-IsAwake self s t (insert xs ys j h e) v = ground arith
  Step-IsAwake self s t (wake n h e) v = ground arith
  Step-IsAwake self s t (stop_store e) v = ground arith
  Step-IsAwake self s t (stop_wake n h e) v = ground arith

  -- In every reachable state no wake-up is lost. Where the worker has found the queue empty and goes to
  -- sleep on an event counter that is zero, and no submitter is still to write to it, the queue is
  -- empty; and where it sleeps so and no stopping thread is still to write, the scheduler is running.
  pub Reach-IsAwake : {self : ℕ} {s : System Q} → Reach mq self s → IsAwake s
  Reach-IsAwake (here c e) = ground arith
  Reach-IsAwake (later r st) = Step-IsAwake _ _ _ st (Reach-IsAwake r)

  -- Falls with each action of the worker.
  unfoldable pub rank : Pc → ℕ
  rank entry = 5
  rank top = 4
  rank popping = 3
  rank (running j) = 5
  rank empty = 2
  rank reading = 1
  rank draining = 1
  rank (final j) = 2
  rank done = 0

  unfoldable pub fuel_for : System Q → ℕ
  unfolding rank
  fuel_for s =
      3 * length (mq.contents s.sched.queue)
      + (if s.sched.event_count == 0 then 0 else 5)
      + rank s.worker

  popped-fuel :
      (s : System Q) (p : Job → Pc) (q : Pc)
      → rank q < rank s.worker
      → ((j : Job) → rank (p j) < rank s.worker + 3)
      → fuel_for (popped mq s p q) < fuel_for s
  unfolding fuel_for
  popped-fuel s p q hq hp = elim (mq.pop_cases s.sched.queue) [
    | inl (e, f) ↦ rw (f, popped) (ground (arith, ap length e))
    | inr (j, r, e, f) ↦ rw (f, popped) (ground (arith, hp j, ap length e))
  ]

  next_at-fuel :
      (self : ℕ) (s t : System Q) (w : Pc)
      → w ≡ s.worker
      → next_at mq self w s ≡ some t
      → fuel_for t < fuel_for s
  unfolding next_at fuel_for rank
  next_at-fuel self s t entry e h = ground arith
  next_at-fuel self s t top e h = ground arith
  next_at-fuel self s t popping e h =
      ground (arith, popped-fuel s running empty (ground arith) (λ (j : Job). ground arith))
  next_at-fuel self s t (running j) e h = ground arith
  next_at-fuel self s t empty e h = ground arith
  next_at-fuel self s t reading e h = ground arith
  next_at-fuel self s t draining e h =
      ground (arith, popped-fuel s final done (ground arith) (λ (j : Job). ground arith))
  next_at-fuel self s t (final j) e h = ground arith
  next_at-fuel self s t done e h = ground arith

  pub worker_next-fuel :
      (self : ℕ) (s t : System Q) → worker_next mq self s ≡ some t → fuel_for t < fuel_for s
  worker_next-fuel self s t h = next_at-fuel self s t s.worker refl h
