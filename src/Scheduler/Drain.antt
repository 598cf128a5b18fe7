-- ===== src/Scheduler/Drain.antt =====
-- UfsrvSchedulerDestroy, and the loop that drains the queue.
use ufsrvrxlib.Base.{
  ℕ, zero, suc, ◌+◌, ◌<◌, ◌≡◌, refl, ap, inl, inr, true, false, not, ◌&&◌, some, arith, length,
  if◌then◌else◌,
}
use ufsrvrxlib.Scheduler.Queue.{MpscQueue}
use ufsrvrxlib.Scheduler.{Job, Scheduler, drain, destroy}

module _ {Q : Type 0} (mq : MpscQueue Job Q) where
  pub drain-contents :
      (k : ℕ) (q : Q) → length (mq.contents q) < k → drain mq k q ≡ some (mq.contents q)
  unfolding drain
  drain-contents zero q h = elim h [ ]
  drain-contents (suc k) q h = elim (mq.pop_cases q) [
    | inl (e, p) ↦ rw (p, drain, e) refl
    | inr (j, r, e, p) ↦ rw (p, drain, e, drain-contents k r (omega (arith, ap length e))) refl
  ]

  -- The scheduler that `UfsrvSchedulerDestroy` frees: joined, if it was started and not joined yet.
  abbrev pub last_state : (Scheduler Q → Scheduler Q) → Scheduler Q → Scheduler Q
  last_state wait s =
      if s.is_started && not s.is_joined
      then wait (record s { is_running = false; event_count = s.event_count + 1; is_joined = true })
      else s

  -- `UfsrvSchedulerDestroy` ends for every scheduler. It stops and joins a worker that was started
  -- and not joined, and no other; it frees exactly the jobs that the queue then holds, in order; and
  -- it closes the event descriptor.
  pub destroy_frees :
      (wait : Scheduler Q → Scheduler Q) (s : Scheduler Q)
      → destroy mq wait (some s)
        ≡ some (record {
          last = last_state wait s;
          freed = mq.contents (last_state wait s).queue;
          closed = (last_state wait s).event_fd;
        })
  unfolding destroy
  destroy_frees wait s = ground (
    arith,
    drain-contents (suc (length (mq.contents s.queue))) s.queue,
    drain-contents (suc (length (mq.contents (last_state wait s).queue))) (last_state wait s).queue,
  )
