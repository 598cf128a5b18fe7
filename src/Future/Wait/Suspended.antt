-- ===== src/Future/Wait/Suspended.antt =====
-- A coroutine that yields in UfsrvFutureGet, and is answered.
use ufsrvrxlib.Base.Memory.{not_null}
use ufsrvrxlib.Base.{ℕ, Bool, ◌≡◌, refl, ap, ◌≢◌, ◌∙◌, true, Option, none, some, ◌∷◌, arith}
use ufsrvrxlib.Future.Interface.{TreiberStack, NodeBase, FutureResult, Host}
use ufsrvrxlib.Future.Heap.{Call, Ptr, null, Future, Promise, Waiter, State, ok, write}
use ufsrvrxlib.Future.Deliver.{IsPlain}
use ufsrvrxlib.Future.Complete.{unregistered, settled}
use ufsrvrxlib.Future.{wake_waiter, waiter_release}
use ufsrvrxlib.Future.Promises.{set_result}
use ufsrvrxlib.Future.Wait.{Caller, suspended_waiter, get_suspended, push_waiter, future_get}
use ufsrvrxlib.Future.Wait.Wake.{spent}
use ufsrvrxlib.Future.Wait.Answer.{IsUnanswered, waiting_on, set_result-answers, spent-last, Got}

module _ {E S B : Type 0} (host : Host E) (stack : TreiberStack S) (base : NodeBase B)
    (call : Call E S B) (plain : IsPlain host call) where
  abbrev pub yielding : ℕ → ℕ → Caller
  yielding sched co = record {
    scheduler = some sched;
    coroutine = some co;
    is_on_worker_thread = true;
  }

  suspended_run :
      (s t : State E S B) (pp a : Ptr) (f : Future S) (q : Promise) (ws : S) (sched co : ℕ)
      (fd : Option ℕ) (g : Future S) (w : Waiter B) (r : FutureResult) (ndebug : Bool)
      → IsUnanswered host stack base call plain s pp f q
      → a ≢ null
      → stack.push f.waiters a ≡ some ws
      → set_result host stack base call pp r (
          waiting_on host stack base call plain s q.future a f
            (suspended_waiter host stack base sched (some co))
            ws)
        ≡ ok tt t
      → t.waiting a ≡ some w
      → (base.release w.base).0 ≡ true
      → t.futures q.future ≡ some g
      → future_get host stack base ndebug
          (set_result host stack base call pp r)
          a
          fd
          (yielding sched co)
          q.future
          s
        ≡ ok g.result (record t { waiting = write t.waiting a none })
  unfolding future_get get_suspended push_waiter waiter_release
  suspended_run s t pp a f q ws sched co fd g w r ndebug v ha pushed set ew last eg =
      let set_unready = simp v.future.unready at set in
      simp (
        not_null q.future v.future.ne_null,
        not_null a ha,
        v.future.holds,
        v.future.unready,
        pushed,
        set_unready,
        ew,
        last,
        eg,
      )

  -- The same for a coroutine, which yields instead: it is submitted for resumption to its own scheduler
  -- exactly once, if that scheduler takes it, and no descriptor is touched.
  pub future_get-yields :
      (s : State E S B) (pp a : Ptr) (f : Future S) (q : Promise) (sched co : ℕ) (fd : Option ℕ)
      (r : FutureResult) (env : E) (ndebug : Bool)
      → IsUnanswered host stack base call plain s pp f q
      → a ≢ null
      → host.submit_resume sched co (unregistered host f.cancel_handle s.env) ≡ some env
      → Got host stack base call plain s a q f r
          (λ t.
            future_get host stack base ndebug
              (set_result host stack base call pp r)
              a
              fd
              (yielding sched co)
              q.future
              s
            ≡ ok r t)
          env
  unfolding wake_waiter
  future_get-yields s pp a f q sched co fd r env ndebug v ha taken =
      let (ws, pushed, items, unclosed) = stack.push-open f.waiters a v.future.unclosed in
      let w = suspended_waiter host stack base sched (some co) in
      let (t, set, holds, waiter, after, others) =
        set_result-answers host stack base call plain s pp a f q w ws r env v ha refl
          (items ∙ ap (λ l. a ∷ l) v.future.alone.0) (λ u e. simp (e, taken)) in
      record {
        last = record t { waiting = write t.waiting a none };
        last_future = settled host stack base call plain (record f { waiters = ws }) r;
        returned =
            suspended_run s t pp a f q ws sched co fd
              (settled host stack base call plain (record f { waiters = ws }) r)
              (spent host stack base w) r ndebug v ha pushed set waiter
              (spent-last host stack base call plain w refl) holds;
        holds = holds;
        flags = (refl, refl);
        result = refl;
        count = refl;
        freed = ground arith;
        env = after;
        other_waiters = λ b ne. ground (arith, others b ne);
      }
