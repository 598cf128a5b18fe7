-- ===== src/Future/Wait.antt =====
-- src/ufsrv_future/ufsrv_future.c: UfsrvFutureGet and UfsrvFutureGetWithCancellation. `elsewhere` is what
-- the rest of the program does while the thread is blocked in `read`, or its coroutine has yielded.
pub mod Wake
pub mod Answer
pub mod Blocking
pub mod Suspended
pub mod Cancelled
pub mod Refused
use ufsrvrxlib.Base.{ℕ, zero, Bool, true, false, not, Option, none, some, ◌==◌, if◌then◌else◌}
use ufsrvrxlib.Base.Int.{ℤ, pos, negsuc}
use ufsrvrxlib.Future.Interface.{TreiberStack, NodeBase, FutureResult, Host}
use ufsrvrxlib.Future.Heap.{
  Ptr, null, Waiter, Call, State, Run, ok, aborted, Cmd, pure, ◌>>=◌, ◌>>◌, load_future,
  store_future, load_waiter, store_waiter, change_env,
}
use ufsrvrxlib.Future.{ecanceled, error_result, wake_waiter, waiter_release, waiter_discard}

abbrev pub edeadlk : ℤ
edeadlk = pos 35

-- Where the caller runs: the scheduler of its coroutine, the coroutine, and whether it is a worker
-- thread. `none` is NULL.
pub record Caller : Type 0 where
  pub scheduler : Option ℕ
  pub coroutine : Option ℕ
  pub is_on_worker_thread : Bool

-- A token: UfsrvCancellationTokenRegisterEx with a callback on a waiter and sWaiterCancelRelease, Unregister,
-- and IsCancelled. `none` is NULL.
pub record WaitToken (E S B : Type 0) : Type 0 where
  pub register_wake : (waiter : Ptr) → Cmd E S B (Option ℕ)
  pub register_resume : (waiter : Ptr) → Cmd E S B (Option ℕ)
  pub unregister : (handle : ℕ) → Cmd E S B (Unit {0})
  pub is_cancelled : Cmd E S B Bool

module _ {E S B : Type 0} (host : Host E) (stack : TreiberStack S) (base : NodeBase B) where
  abbrev pub result_of : Ptr → Cmd E S B FutureResult
  result_of p = do f ← load_future p; pure f.result

  abbrev pub blocking_waiter : ℕ → Waiter B
  blocking_waiter fd = record {
    base = base.init;
    coroutine = none;
    scheduler = 0;
    block_fd = some fd;
    cancel_handle = none;
  }

  abbrev pub suspended_waiter : ℕ → Option ℕ → Waiter B
  suspended_waiter sched co = record {
    base = base.init;
    coroutine = co;
    scheduler = sched;
    block_fd = none;
    cancel_handle = none;
  }

  -- The waiter is pushed onto the future's stack: true unless the stack is closed.
  unfoldable pub push_waiter : Ptr → Ptr → Cmd E S B Bool
  push_waiter p a = do
    f ← load_future p
    elim (stack.push f.waiters a) [
      | none ↦ pure false
      | some ws ↦ store_future p (some (record f { waiters = ws })) >> pure true
    ]

  -- `sFutureGetBlocking`; `fresh` is what malloc returns, `eventfd` is `none` for -1.
  unfoldable pub get_blocking :
      (elsewhere : Cmd E S B (Unit {0})) (fresh : Ptr) (eventfd : Option ℕ)
      → Ptr
      → Cmd E S B FutureResult
  unfolding push_waiter
  get_blocking elsewhere a none p = pure (error_result (negsuc 0))
  get_blocking elsewhere a (some fd) p = if a == null then pure (error_result (negsuc 0)) else do
    store_waiter a (some (blocking_waiter fd))
    pushed ← push_waiter p a
    if not pushed
        then (do change_env (host.close_fd fd); waiter_discard host stack base a; result_of p)
        else (do
          elsewhere
          change_env (host.close_fd fd)
          waiter_release host stack base a
          result_of p)

  -- The wait of a coroutine, which yields.
  unfoldable pub get_suspended :
      (elsewhere : Cmd E S B (Unit {0})) (fresh : Ptr)
      → Caller
      → (scheduler : ℕ) → Ptr
      → Cmd E S B FutureResult
  unfolding push_waiter
  get_suspended elsewhere a caller sched p =
      if a == null then pure (error_result (negsuc 0)) else do
        store_waiter a (some (suspended_waiter sched caller.coroutine))
        pushed ← push_waiter p a
        if not pushed
            then (do waiter_discard host stack base a; result_of p)
            else (do elsewhere; waiter_release host stack base a; result_of p)

  -- A blocking wait on a worker thread: a failed assert, or EDEADLK where NDEBUG removes it.
  abbrev pub deadlock : (ndebug : Bool) → Cmd E S B FutureResult
  deadlock true = pure (error_result edeadlk)
  deadlock false = λ s. aborted

  -- `UfsrvFutureGet`.
  unfoldable pub future_get :
      (ndebug : Bool) (elsewhere : Cmd E S B (Unit {0})) (fresh : Ptr) (eventfd : Option ℕ)
      → Caller
      → Ptr
      → Cmd E S B FutureResult
  unfolding get_blocking get_suspended
  future_get ndebug elsewhere a fd caller p =
      if p == null then pure (error_result (negsuc 0)) else do
        f ← load_future p
        if f.is_ready then pure f.result else elim caller.scheduler [
          | none ↦
              if caller.is_on_worker_thread then deadlock ndebug else get_blocking elsewhere a fd p
          | some sched ↦ get_suspended elsewhere a caller sched p
        ]

  -- `sResumeWaiterOnCancel` and `sWakeBlockingWaiterOnCancel`.
  unfoldable pub resume_waiter_on_cancel : Ptr → Cmd E S B (Unit {0})
  resume_waiter_on_cancel a = do
    w ← load_waiter a
    store_waiter a (some (record w { base = (base.claim w.base).1 }))
    if (base.claim w.base).0
        then elim w.coroutine [
          | none ↦ λ s. aborted
          | some co ↦ λ s. elim (host.submit_resume w.scheduler co s.env) [
            | none ↦ aborted
            | some env ↦ ok tt (record s { env = env })
          ]
        ]
        else pure tt

  unfoldable pub wake_waiter_on_cancel : Ptr → Cmd E S B (Unit {0})
  wake_waiter_on_cancel a = do
    w ← load_waiter a
    store_waiter a (some (record w { base = (base.claim w.base).1 }))
    if (base.claim w.base).0
        then elim w.block_fd [ none ↦ pure tt | some fd ↦ change_env (host.write_fd fd) ]
        else pure tt

  -- `sWaiterCancelRelease`.
  unfoldable pub waiter_cancel_release : Ptr → Cmd E S B (Unit {0})
  unfolding waiter_release
  waiter_cancel_release a = waiter_release host stack base a

  -- One reference of the waiter goes, without a test whether it was the last.
  abbrev pub drop_waiter_ref : Ptr → Cmd E S B (Unit {0})
  drop_waiter_ref a = do
    w ← load_waiter a
    store_waiter a (some (record w { base = (base.release w.base).1 }))

  abbrev pub close_waiter : Ptr → Cmd E S B (Unit {0})
  close_waiter a = do
    w ← load_waiter a
    elim w.block_fd [ none ↦ pure tt | some fd ↦ change_env (host.close_fd fd) ]
    store_waiter a (some (record w { block_fd = none }))

  -- The end of a wait on a token: the handle is given back, and cancellation goes before the result.
  unfoldable pub finish_wait : WaitToken E S B → Ptr → Ptr → Cmd E S B FutureResult
  finish_wait token a p = do
    w ← load_waiter a
    elim w.cancel_handle [ none ↦ pure tt | some h ↦ token.unregister h ]
    waiter_release host stack base a
    cancelled ← token.is_cancelled
    if cancelled then pure (error_result ecanceled) else result_of p

  -- The waiter is retained for the token and registered with it; `none` where that is refused.
  unfoldable pub register_waiter :
      (register : Ptr → Cmd E S B (Option ℕ)) → Ptr → Cmd E S B (Option ℕ)
  register_waiter register a = do
    w ← load_waiter a
    store_waiter a (some (record w { base = base.retain w.base }))
    handle ← register a
    v ← load_waiter a
    store_waiter a (some (record v { cancel_handle = handle }))
    pure handle

  -- `sFutureGetBlockingCancellable`.
  unfoldable pub get_blocking_cancellable :
      (elsewhere : Cmd E S B (Unit {0})) (fresh : Ptr) (eventfd : Option ℕ)
      → WaitToken E S B
      → Ptr
      → Cmd E S B FutureResult
  unfolding push_waiter finish_wait register_waiter
  get_blocking_cancellable elsewhere a none token p = pure (error_result (negsuc 0))
  get_blocking_cancellable elsewhere a (some fd) token p =
      if a == null then pure (error_result (negsuc 0)) else do
        store_waiter a (some (blocking_waiter fd))
        pushed ← push_waiter p a
        if not pushed
            then (do close_waiter a; waiter_discard host stack base a; result_of p)
            else (do
              handle ← register_waiter token.register_wake a
              elim handle [
                | none ↦ (do
                  drop_waiter_ref a
                  close_waiter a
                  drop_waiter_ref a
                  pure (error_result (negsuc 0)))
                | some h ↦ (do elsewhere; close_waiter a; finish_wait token a p)
              ])

  -- The wait of a coroutine on a future and a token.
  unfoldable pub get_suspended_cancellable :
      (elsewhere : Cmd E S B (Unit {0})) (fresh : Ptr)
      → Caller
      → (scheduler : ℕ) → WaitToken E S B
      → Ptr
      → Cmd E S B FutureResult
  unfolding push_waiter finish_wait register_waiter
  get_suspended_cancellable elsewhere a caller sched token p =
      if a == null then pure (error_result (negsuc 0)) else do
        store_waiter a (some (suspended_waiter sched caller.coroutine))
        pushed ← push_waiter p a
        if not pushed then (do waiter_discard host stack base a; result_of p) else (do
          handle ← register_waiter token.register_resume a
          elim handle [
            | none ↦ (do drop_waiter_ref a; drop_waiter_ref a; pure (error_result (negsuc 0)))
            | some h ↦ (do elsewhere; finish_wait token a p)
          ])

  -- `UfsrvFutureGetWithCancellation`; no token is NULL.
  unfoldable pub future_get_with_cancellation :
      (ndebug : Bool) (elsewhere : Cmd E S B (Unit {0})) (fresh : Ptr) (eventfd : Option ℕ)
      → Caller
      → Option (WaitToken E S B)
      → Ptr
      → Cmd E S B FutureResult
  unfolding future_get get_blocking_cancellable get_suspended_cancellable
  future_get_with_cancellation ndebug elsewhere a fd caller none p =
      future_get ndebug elsewhere a fd caller p
  future_get_with_cancellation ndebug elsewhere a fd caller (some token) p =
      if p == null then pure (error_result (negsuc 0)) else do
        cancelled ← token.is_cancelled
        if cancelled then pure (error_result ecanceled) else do
          f ← load_future p
          if f.is_ready then pure f.result else elim caller.scheduler [
            | none ↦
                if caller.is_on_worker_thread
                then deadlock ndebug
                else get_blocking_cancellable elsewhere a fd token p
            | some sched ↦ get_suspended_cancellable elsewhere a caller sched token p
          ]
