-- ===== src/Scheduler/Order.antt =====
-- The order of the worker's calls, against the order of insertion.
use ufsrvrxlib.Base.{
  ℕ, ◌≡◌, refl, sym, ap, ◌∙◌, inl, inr, some, List, [], ◌∷◌, ◌++◌, append-nil, append_assoc, arith,
}
use ufsrvrxlib.Scheduler.Queue.{MpscQueue}
use ufsrvrxlib.Scheduler.{Job, Call, call_of, run_job}
use ufsrvrxlib.Scheduler.Worker.{
  Pc, entry, top, popping, running, empty, reading, draining, final, done, System, next_at, popped,
  inserted_job, Step, work, interrupted, read_failed, check, insert, wake, stop_store, stop_wake,
  Reach, here, later,
}

-- The calls that running these jobs makes.
abbrev pub calls_of : List Job → List Call
calls_of [] = []
calls_of (j ∷ js) = call_of j ++ calls_of js

calls_of-append : (xs ys : List Job) → calls_of (xs ++ ys) ≡ calls_of xs ++ calls_of ys
calls_of-append [] ys = refl
calls_of-append (x ∷ xs) ys =
    ap (◌++◌ (call_of x)) (calls_of-append xs ys)
    ∙ sym (append_assoc (call_of x) (calls_of xs) (calls_of ys))

-- The job that the worker has taken and not yet called.
abbrev pub in_hand : Pc → List Job
in_hand (running j) = j ∷ []
in_hand (final j) = j ∷ []
in_hand _ = []

module _ {Q : Type 0} (mq : MpscQueue Job Q) where
  -- What was called, what is in hand and what is queued make up the history of insertions.
  abbrev pub IsInOrder : System Q → Type 0
  IsInOrder s =
      s.calls ++ (calls_of (in_hand s.worker) ++ calls_of (mq.contents s.sched.queue))
      ≡ calls_of s.inserted

  popped-IsInOrder :
      (s : System Q) (p : Job → Pc) (q : Pc)
      → in_hand q ≡ []
      → ((j : Job) → in_hand (p j) ≡ j ∷ [])
      → in_hand s.worker ≡ []
      → IsInOrder s
      → IsInOrder (popped mq s p q)
  popped-IsInOrder s p q hq hp hw v = elim (mq.pop_cases s.sched.queue) [
    | inl (e, f) ↦ rw (f, popped) (ground arith)
    | inr (j, r, e, f) ↦ rw (f, popped) (ground (arith, hp j))
  ]

  next_at-IsInOrder :
      (self : ℕ) (s t : System Q) (w : Pc)
      → w ≡ s.worker
      → next_at mq self w s ≡ some t
      → IsInOrder s
      → IsInOrder t
  unfolding next_at run_job
  next_at-IsInOrder self s t entry e h v = ground arith
  next_at-IsInOrder self s t top e h v = ground arith
  next_at-IsInOrder self s t popping e h v = ground (arith, popped-IsInOrder s running empty)
  next_at-IsInOrder self s t (running j) e h v = ground (
    arith,
    append_assoc s.calls (call_of j) (calls_of (mq.contents s.sched.queue)),
    append-nil (call_of j),
  )
  next_at-IsInOrder self s t empty e h v = ground arith
  next_at-IsInOrder self s t reading e h v = ground arith
  next_at-IsInOrder self s t draining e h v = ground (arith, popped-IsInOrder s final done)
  next_at-IsInOrder self s t (final j) e h v = ground (
    arith,
    append_assoc s.calls (call_of j) (calls_of (mq.contents s.sched.queue)),
    append-nil (call_of j),
  )
  next_at-IsInOrder self s t done e h v = ground arith

  insert-IsInOrder :
      (s : System Q) (j : Job) (rest : List Job)
      → IsInOrder s
      → IsInOrder (inserted_job mq s j rest)
  insert-IsInOrder s j rest v =
      rw
        (
          mq.contents-insert s.sched.queue j,
          calls_of-append (mq.contents s.sched.queue) (j ∷ []),
          calls_of-append s.inserted (j ∷ []),
          ← v,
        )
        (simp append_assoc)

  pub Step-IsInOrder : (self : ℕ) (s t : System Q) → Step mq self s t → IsInOrder s → IsInOrder t
  Step-IsInOrder self s t (work h) v = next_at-IsInOrder self s t s.worker refl h v
  Step-IsInOrder self s t (interrupted w e) v = ground arith
  Step-IsInOrder self s t (read_failed w e) v = ground arith
  Step-IsInOrder self s t (check j h e) v = ground arith
  Step-IsInOrder self s t (insert xs ys j h e) v = ground (arith, insert-IsInOrder s j (xs ++ ys))
  Step-IsInOrder self s t (wake n h e) v = ground arith
  Step-IsInOrder self s t (stop_store e) v = ground arith
  Step-IsInOrder self s t (stop_wake n h e) v = ground arith

  -- In every state that the worker, any number of submitting threads and any number of stopping threads
  -- reach together, in any interleaving: what the worker has called, then the job that it has in hand,
  -- then the jobs in the queue are the calls of all the jobs ever inserted, in order of insertion. So
  -- no inserted job is lost, called twice or overtaken.
  pub Reach-IsInOrder : {self : ℕ} {s : System Q} → Reach mq self s → IsInOrder s
  Reach-IsInOrder (here c e) = ground arith
  Reach-IsInOrder (later r st) = Step-IsInOrder _ _ _ st (Reach-IsInOrder r)
