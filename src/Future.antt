-- ===== src/Future.antt =====
-- src/ufsrv_future/ufsrv_future.c and ufsrv_future_priv.h: futures and promises over an explicit heap.
-- Each function is one thread's run of it; what calloc and lockless_treiber_stack_create return is an
-- argument.
pub mod Interface
pub mod Heap
pub mod Promises
pub mod Deliver
pub mod Pending
pub mod Complete
pub mod Awaited
pub mod Detach
pub mod Finish
pub mod Then
pub mod Fulfil
pub mod Ready
pub mod Release
pub mod Combinators
pub mod Wait
pub mod Race
use ufsrvrxlib.Base.{
  ℕ, suc, ◌+◌, ◌-◌, Bool, true, false, not, Option, none, some, List, [], ◌∷◌, ◌==◌, if◌then◌else◌,
  is_some,
}
use ufsrvrxlib.Base.Int.{ℤ, pos, negsuc}
use Interface.{TreiberStack, NodeBase, FutureResult, Host}
use Heap.{
  Ptr, null, Future, Promise, Continuation, Waiter, Fn, Call, State, Run, ok, fault, aborted, Cmd,
  pure, ◌>>=◌, ◌>>◌, load_future, store_future, load_promise, store_promise, load_cont, store_cont,
  load_waiter, store_waiter, change_env,
}

-- The values of <errno.h>.
abbrev pub epipe : ℤ
epipe = pos 32

abbrev pub ecanceled : ℤ
ecanceled = pos 125

abbrev pub no_result : FutureResult
no_result = record { error = pos 0; value = none; free_value = none }

abbrev pub error_result : ℤ → FutureResult
error_result e = record { error = e; value = none; free_value = none }

module _ {E S B : Type 0} (host : Host E) (stack : TreiberStack S) (base : NodeBase B) where
  -- `free_value(value)`, where neither is NULL.
  abbrev pub free_result : FutureResult → E → E
  free_result r env = elim r.free_value [
    | none ↦ env
    | some d ↦ elim r.value [ none ↦ env | some v ↦ host.free_value d v env ]
  ]

  -- `sNodeRelease`.
  unfoldable pub node_release : Ptr → Cmd E S B (Unit {0})
  node_release c = do
    n ← load_cont c
    store_cont c (
        if (base.release n.base).0
        then none
        else some (record n { base = (base.release n.base).1 }))

  -- `sNodeDiscard`.
  unfoldable pub node_discard : Ptr → Cmd E S B (Unit {0})
  unfolding node_release
  node_discard c = do
    n ← load_cont c
    store_cont c (some (record n { base = (base.release n.base).1 }))
    node_release c

  -- A waiter that was claimed is resumed, or its descriptor written to.
  unfoldable pub wake_waiter : Waiter B → Cmd E S B (Unit {0})
  wake_waiter w = elim w.coroutine [
    | some co ↦ λ s. elim (host.submit_resume w.scheduler co s.env) [
      | none ↦ aborted
      | some env ↦ ok tt (record s { env = env })
    ]
    | none ↦ elim w.block_fd [ none ↦ pure tt | some fd ↦ change_env (host.write_fd fd) ]
  ]

  unfoldable pub waiter_release : Ptr → Cmd E S B (Unit {0})
  waiter_release p = do
    w ← load_waiter p
    store_waiter p (
        if (base.release w.base).0
        then none
        else some (record w { base = (base.release w.base).1 }))

  -- The loop of `sDrainWaiters`.
  pub wake_waiters : List Ptr → Cmd E S B (Unit {0})
  wake_waiters [] = pure tt
  wake_waiters (p ∷ ps) = do
    w ← load_waiter p
    store_waiter p (some (record w { base = (base.claim w.base).1 }))
    if (base.claim w.base).0 then wake_waiter w else pure tt
    waiter_release p
    wake_waiters ps

  -- `sDrainWaiters`.
  unfoldable pub drain_waiters : Ptr → Cmd E S B (Unit {0})
  drain_waiters p = do
    f ← load_future p
    store_future p (some (record f { waiters = (stack.steal_all_and_close f.waiters).1 }))
    wake_waiters (stack.steal_all_and_close f.waiters).0

  -- `sWaiterDiscard`.
  unfoldable pub waiter_discard : Ptr → Cmd E S B (Unit {0})
  unfolding waiter_release
  waiter_discard p = do
    w ← load_waiter p
    store_waiter p (some (record w { base = (base.release w.base).1 }))
    waiter_release p

  -- `sPushContinuation`: the stack behind the push, or `none` where it is refused.
  abbrev pub push_continuation : Future S → Ptr → Option S
  push_continuation f c = stack.push f.continuations c

  -- `sConsumeOnce`.
  unfoldable pub consume_once : Ptr → Cmd E S B Bool
  consume_once p = do
    f ← load_future p
    store_future p (some (record f { is_consumed = true }))
    pure (not f.is_consumed)

module _ {E S B : Type 0} (host : Host E) (stack : TreiberStack S) (base : NodeBase B)
    (call : Call E S B) where
  -- The handle, where it is not NULL, is unregistered; what that does to the futures, at once or not at
  -- all, is `call`'s.
  abbrev pub unregister_handle : Option ℕ → Cmd E S B (Unit {0})
  unregister_handle none = pure tt
  unregister_handle (some h) = call.unregister h

  -- `fn(&future_ptr->result, context_ptr)`.
  unfoldable pub deliver : Ptr → Fn → (user : ℕ) → Cmd E S B (Unit {0})
  deliver p fn user = do
    f ← load_future p
    written ← call.run fn user f.result
    elim written [
      | none ↦ pure tt
      | some r ↦ (do g ← load_future p; store_future p (some (record g { result = r })))
    ]

  -- `sRunContinuation`.
  unfoldable pub run_continuation : Ptr → Ptr → Cmd E S B (Unit {0})
  run_continuation p c = do
    n ← load_cont c
    store_cont c (some (record n { base = (base.claim n.base).1 }))
    if (base.claim n.base).0 then deliver p n.fn n.user else pure tt

  -- The loop of `sDrainContinuations` over the nodes that were stolen.
  pub run_continuations : Ptr → List Ptr → Cmd E S B (Unit {0})
  run_continuations p [] = pure tt
  run_continuations p (c ∷ cs) = do
    run_continuation p c
    node_release host stack base c
    run_continuations p cs

  -- `sDrainContinuations`.
  unfoldable pub drain_continuations : Ptr → Cmd E S B (Unit {0})
  drain_continuations p = do
    f ← load_future p
    store_future p
        (some (record f { continuations = (stack.steal_all_and_close f.continuations).1 }))
    run_continuations p (stack.steal_all_and_close f.continuations).0

  -- `sFutureComplete`.
  unfoldable pub future_complete : Ptr → FutureResult → Cmd E S B Bool
  future_complete p result = do
    f ← load_future p
    store_future p (some (record f { is_completed = true }))
    if f.is_completed then pure false else do
      g ← load_future p
      store_future p (some (record g { result = result; is_ready = true }))
      h ← load_future p
      store_future p (some (record h { cancel_handle = none }))
      unregister_handle h.cancel_handle
      drain_waiters host stack base p
      drain_continuations p
      pure true

  -- `sFutureThen`, behind the tests for NULL; `fresh` is what calloc returns.
  unfoldable pub then_on : (fresh : Ptr) → Ptr → Fn → (user : ℕ) → Cmd E S B Bool
  then_on fresh p fn user = do
    f ← load_future p
    if f.is_ready then deliver p fn user >> pure true else if fresh == null then pure false else do
      store_cont fresh (some (record { base = base.init; fn = fn; user = user }))
      elim (push_continuation host stack base f fresh) [
        | none ↦ deliver p fn user >> node_discard host stack base fresh >> pure true
        | some s ↦
            store_future p (some (record f { continuations = s }))
            >> node_release host stack base fresh
            >> pure true
      ]

  -- `UfsrvFutureThen`.
  unfoldable pub future_then : (fresh : Ptr) → Ptr → Option Fn → (user : ℕ) → Cmd E S B Bool
  unfolding then_on
  future_then fresh p none user = pure false
  future_then fresh p (some fn) user = if p == null then pure false else then_on fresh p fn user
