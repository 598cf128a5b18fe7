-- ===== src/Future/Wait/Blocking.antt =====
-- A thread that blocks in UfsrvFutureGet, and is answered.
use ufsrvrxlib.Base.Memory.{not_null}
use ufsrvrxlib.Base.{ℕ, Bool, ◌≡◌, refl, ap, ◌≢◌, ◌∙◌, true, false, none, some, ◌∷◌, arith}
use ufsrvrxlib.Future.Interface.{TreiberStack, NodeBase, FutureResult, Host}
use ufsrvrxlib.Future.Heap.{Call, Ptr, null, Future, Promise, Waiter, State, ok, write}
use ufsrvrxlib.Future.Deliver.{IsPlain}
use ufsrvrxlib.Future.Complete.{unregistered, settled}
use ufsrvrxlib.Future.{wake_waiter, waiter_release}
use ufsrvrxlib.Future.Promises.{set_result}
use ufsrvrxlib.Future.Wait.{Caller, blocking_waiter, get_blocking, push_waiter, future_get}
use ufsrvrxlib.Future.Wait.Wake.{spent}
use ufsrvrxlib.Future.Wait.Answer.{IsUnanswered, waiting_on, set_result-answers, spent-last, Got}

module _ {E S B : Type 0} (host : Host E) (stack : TreiberStack S) (base : NodeBase B)
    (call : Call E S B) (plain : IsPlain host call) where
  abbrev pub blocked : Caller
  blocked = record { scheduler = none; coroutine = none; is_on_worker_thread = false }

  blocking_run :
      (s t : State E S B) (pp a : Ptr) (f : Future S) (q : Promise) (ws : S) (fd : ℕ) (g : Future S)
      (w : Waiter B) (r : FutureResult) (ndebug : Bool)
      → IsUnanswered host stack base call plain s pp f q
      → a ≢ null
      → stack.push f.waiters a ≡ some ws
      → set_result host stack base call pp r (
          waiting_on host stack base call plain s q.future a f
            (blocking_waiter host stack base fd)
            ws)
        ≡ ok tt t
      → t.waiting a ≡ some w
      → (base.release w.base).0 ≡ true
      → t.futures q.future ≡ some g
      → future_get host stack base ndebug
          (set_result host stack base call pp r)
          a
          (some fd)
          blocked
          q.future
          s
        ≡ ok g.result (record t { waiting = write t.waiting a none; env = host.close_fd fd t.env })
  unfolding future_get get_blocking push_waiter waiter_release
  blocking_run s t pp a f q ws fd g w r ndebug v ha pushed set ew last eg =
      let set_unready = simp v.future.unready at set in
      simp (
        not_null q.future v.future.ne_null,
        not_null a ha,
        v.future.holds,
        v.future.unready,
        pushed,
        set_unready,
        ew,
        last,
        eg,
      )

  -- A thread outside every scheduler calls `UfsrvFutureGet` on a future that nobody has completed and with
  -- nothing registered on it, and another thread sets the result of its promise while this one is blocked:
  -- the call returns that result, the waiter's descriptor has been written to once, behind the end of the
  -- cancellation handle, and then closed, and the waiter is freed.
  pub future_get-blocks :
      (s : State E S B) (pp a : Ptr) (f : Future S) (q : Promise) (fd : ℕ) (r : FutureResult)
      (ndebug : Bool)
      → IsUnanswered host stack base call plain s pp f q
      → a ≢ null
      → Got host stack base call plain s a q f r
          (λ t.
            future_get host stack base ndebug
              (set_result host stack base call pp r)
              a
              (some fd)
              blocked
              q.future
              s
            ≡ ok r t)
          (host.close_fd fd (host.write_fd fd (unregistered host f.cancel_handle s.env)))
  unfolding wake_waiter
  future_get-blocks s pp a f q fd r ndebug v ha =
      let (ws, pushed, items, unclosed) = stack.push-open f.waiters a v.future.unclosed in
      let w = blocking_waiter host stack base fd in
      let (t, set, holds, waiter, env, others) =
        set_result-answers host stack base call plain s pp a f q w ws r
          (host.write_fd fd (unregistered host f.cancel_handle s.env)) v ha refl
          (items ∙ ap (λ l. a ∷ l) v.future.alone.0) (λ u e. simp e) in
      record {
        last = record t { waiting = write t.waiting a none; env = host.close_fd fd t.env };
        last_future = settled host stack base call plain (record f { waiters = ws }) r;
        returned =
            blocking_run s t pp a f q ws fd
              (settled host stack base call plain (record f { waiters = ws }) r)
              (spent host stack base w) r ndebug v ha pushed set waiter
              (spent-last host stack base call plain w refl) holds;
        holds = holds;
        flags = (refl, refl);
        result = refl;
        count = refl;
        freed = ground arith;
        env = ap (host.close_fd fd) env;
        other_waiters = λ b ne. ground (arith, others b ne);
      }
