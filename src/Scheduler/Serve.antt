-- ===== src/Scheduler/Serve.antt =====
-- What a scheduler promises, without threads, queue and event descriptor: a server that accepts jobs
-- while it is open and serves them one at a time.
use ufsrvrxlib.Base.{
  ℕ, ◌≡◌, refl, sym, ap, ◌∙◌, ◌⊎◌, inl, inr, Bool, true, false, some, List, [], ◌∷◌, ◌++◌, arith,
  append_assoc,
}
use ufsrvrxlib.Scheduler.Queue.{MpscQueue}
use ufsrvrxlib.Scheduler.{Job, Call, run_job}
use ufsrvrxlib.Scheduler.Order.{in_hand}
use ufsrvrxlib.Scheduler.Worker.{
  Pc, entry, top, popping, running, empty, reading, draining, final, done, System, next_at, popped,
  Step, work, interrupted, read_failed, check, insert, wake, stop_store, stop_wake, Reach, here,
  later,
}

-- `offered` are the jobs whose submitters found the server open.
pub record Server : Type 0 where
  pub is_open : Bool
  pub offered : List Job
  pub todo : List Job
  pub calls : List Call

-- One action of the server, or of those who use it.
pub data Act (s t : Server) : Type 0 where
  offer : (j : Job) → s.is_open ≡ true → t ≡ record s { offered = j ∷ s.offered } → Act s t
  accept :
      (xs ys : List Job) (j : Job)
      → s.offered ≡ xs ++ j ∷ ys
      → t ≡ record s { offered = xs ++ ys; todo = s.todo ++ j ∷ [] }
      → Act s t
  serve :
      (j : Job) (js : List Job)
      → s.todo ≡ j ∷ js
      → t ≡ record s { todo = js; calls = run_job j s.calls }
      → Act s t
  close : t ≡ record s { is_open = false } → Act s t

-- What a server that starts open and idle can come to.
pub data Served : Server → Type 0 where
  idle : Served (record { is_open = true; offered = []; todo = []; calls = [] })
  acted : {s t : Server} → Served s → Act s t → Served t

module _ {Q : Type 0} (mq : MpscQueue Job Q) where
  -- What a system is as a server: the job in hand is still to be done.
  abbrev pub server_of : System Q → Server
  server_of s = record {
    is_open = s.sched.is_running;
    offered = s.checked;
    todo = in_hand s.worker ++ mq.contents s.sched.queue;
    calls = s.calls;
  }

  -- A step is seen as an action of the server, or not at all.
  abbrev IsSeen : System Q → System Q → Type 0
  IsSeen s t = Act (server_of s) (server_of t) ⊎ (server_of t ≡ server_of s)

  popped-same :
      (s : System Q) (p : Job → Pc) (q : Pc)
      → in_hand q ≡ []
      → ((j : Job) → in_hand (p j) ≡ j ∷ [])
      → in_hand s.worker ≡ []
      → server_of (popped mq s p q) ≡ server_of s
  popped-same s p q hq hp hw = elim (mq.pop_cases s.sched.queue) [
    | inl (e, f) ↦ rw (f, popped, hq, hw) refl
    | inr (j, r, e, f) ↦ rw (f, popped, hp j, hw, e) refl
  ]

  next_at-IsSeen :
      (self : ℕ) (s t : System Q) (w : Pc)
      → s.worker ≡ w
      → next_at mq self w s ≡ some t
      → IsSeen s t
  unfolding next_at
  next_at-IsSeen self s t entry e h = inr (ground arith)
  next_at-IsSeen self s t top e h = inr (ground arith)
  next_at-IsSeen self s t popping e h = inr (ground (arith, popped-same s running empty))
  next_at-IsSeen self s t (running j) e h =
      inl (serve j (mq.contents s.sched.queue) (ground arith) (ground arith))
  next_at-IsSeen self s t empty e h = inr (ground arith)
  next_at-IsSeen self s t reading e h = inr (ground arith)
  next_at-IsSeen self s t draining e h = inr (ground (arith, popped-same s final done))
  next_at-IsSeen self s t (final j) e h =
      inl (serve j (mq.contents s.sched.queue) (ground arith) (ground arith))
  next_at-IsSeen self s t done e h = ground arith

  Step-IsSeen : (self : ℕ) (s t : System Q) → Step mq self s t → IsSeen s t
  Step-IsSeen self s t (work h) = next_at-IsSeen self s t s.worker refl h
  Step-IsSeen self s t (interrupted w e) = inr (ground arith)
  Step-IsSeen self s t (read_failed w e) = inr (ground arith)
  Step-IsSeen self s t (check j h e) = inl (offer j h (ap server_of e))
  Step-IsSeen self s t (insert xs ys j h e) =
      let queued : in_hand s.worker ++ mq.contents (mq.insert s.sched.queue j)
          ≡ (in_hand s.worker ++ mq.contents s.sched.queue) ++ j ∷ [] =
        rw (mq.contents-insert s.sched.queue j)
          (sym (append_assoc (in_hand s.worker) (mq.contents s.sched.queue) (j ∷ []))) in
      inl (
        accept xs ys j h
          (ap server_of e ∙ ap (λ l. record (server_of s) { offered = xs ++ ys; todo = l }) queued))
  Step-IsSeen self s t (wake n h e) = inr (ap server_of e)
  Step-IsSeen self s t (stop_store e) = inl (close (ap server_of e))
  Step-IsSeen self s t (stop_wake n h e) = inr (ap server_of e)

  -- The worker, with any number of submitting and stopping threads beside it in any interleaving, does
  -- nothing but what a server does that accepts jobs while it is open, in the order of their insertion,
  -- and serves them one at a time in that order: every state that they reach is, seen as a server with
  -- the job in hand still to be done, one that this server reaches.
  pub Reach-Served : {self : ℕ} {s : System Q} → Reach mq self s → Served (server_of s)
  Reach-Served (here c e) = rw e idle
  Reach-Served (later r st) = elim (Step-IsSeen _ _ _ st) [
    | inl act ↦ acted (Reach-Served r) act
    | inr same ↦ rw same (Reach-Served r)
  ]
