-- ===== src/Future/Promises.antt =====
-- src/ufsrv_future/ufsrv_future.c: promises, the references to a future, futures that are ready from the
-- start, and the cancellation token of a future.
use ufsrvrxlib.Base.{
  ℕ, ◌+◌, ◌-◌, Bool, true, false, not, Option, none, some, List, [], ◌∷◌, ◌==◌, if◌then◌else◌,
  is_some,
}
use ufsrvrxlib.Base.Int.{ℤ, pos}
use ufsrvrxlib.Future.Interface.{TreiberStack, NodeBase, FutureResult, Host}
use ufsrvrxlib.Future.Heap.{
  Ptr, null, Call, Cmd, pure, ◌>>=◌, ◌>>◌, load_future, store_future, load_promise, store_promise,
  load_waiter, change_env,
}
use ufsrvrxlib.Future.{
  epipe, ecanceled, no_result, error_result, free_result, node_release, waiter_release,
  unregister_handle, future_complete,
}

module _ {E S B : Type 0} (host : Host E) (stack : TreiberStack S) (base : NodeBase B) where
  -- `UfsrvPromiseCreate`: the promise and its future. The pointers are what calloc returns, the
  -- stacks what the stack's create returns, `none` for NULL.
  unfoldable pub promise_create :
      (out_given : Bool) (fresh_future fresh_promise : Ptr) (continuations waiters : Option S)
      → Cmd E S B (Option (Ptr × Ptr))
  promise_create false fp pp cs ws = pure none
  promise_create true fp pp cs none = pure none
  promise_create true fp pp none (some ws) = pure none
  promise_create true fp pp (some cs) (some ws) =
      if fp == null then pure none else if pp == null then pure none else do
        store_future fp (
            some (record {
              is_completed = false;
              is_consumed = false;
              is_ready = false;
              result = no_result;
              continuations = cs;
              waiters = ws;
              refcount = 2;
              cancel_token = none;
              cancel_handle = none;
            }))
        store_promise pp (some (record { future = fp; is_fulfilled = false }))
        pure (some (pp, fp))

  -- The nodes that `UfsrvFutureRelease` finds in the stacks.
  unfoldable pub release_conts : List Ptr → Cmd E S B (Unit {0})
  release_conts [] = pure tt
  release_conts (c ∷ cs) = node_release host stack base c >> release_conts cs

  unfoldable pub release_waiters : List Ptr → Cmd E S B (Unit {0})
  release_waiters [] = pure tt
  release_waiters (p ∷ ps) = do
    w ← load_waiter p
    elim w.block_fd [ none ↦ pure tt | some fd ↦ change_env (host.close_fd fd) ]
    waiter_release host stack base p
    release_waiters ps

  abbrev drop_token : Option ℕ → Cmd E S B (Unit {0})
  drop_token none = pure tt
  drop_token (some t) = change_env (host.token_destroy t)

  -- `UfsrvFutureRelease`. The reference dropped is the last if the count was 1.
  unfoldable pub future_release : Ptr → Cmd E S B (Unit {0})
  unfolding release_conts release_waiters
  future_release p = if p == null then pure tt else do
    f ← load_future p
    store_future p (some (record f { refcount = f.refcount - 1 }))
    if not (f.refcount == 1) then pure tt else do
      g ← load_future p
      change_env (free_result host stack base g.result)
      release_conts (stack.steal_all_and_close g.continuations).0
      release_waiters (stack.steal_all_and_close g.waiters).0
      drop_token g.cancel_token
      store_future p none

  -- `UfsrvFutureRetain`.
  unfoldable pub future_retain : Ptr → Cmd E S B (Unit {0})
  future_retain p =
      if p == null
      then pure tt
      else do f ← load_future p; store_future p (some (record f { refcount = f.refcount + 1 }))

  -- `UfsrvFutureIsReady`.
  unfoldable pub is_future_ready : Ptr → Cmd E S B Bool
  is_future_ready p = if p == null then pure false else do f ← load_future p; pure f.is_ready

module _ {E S B : Type 0} (host : Host E) (stack : TreiberStack S) (base : NodeBase B)
    (call : Call E S B) where
  -- `UfsrvPromiseSetResult`.
  unfoldable pub set_result : Ptr → FutureResult → Cmd E S B (Unit {0})
  unfolding future_complete
  set_result pp result = if pp == null then pure tt else do
    q ← load_promise pp
    store_promise pp (some (record q { is_fulfilled = true }))
    if q.is_fulfilled then change_env (free_result host stack base result) else do
      completed ← future_complete host stack base call q.future result
      if completed then pure tt else change_env (free_result host stack base result)

  -- `UfsrvPromiseSetValue`.
  unfoldable pub set_value : Ptr → (value free_value : Option ℕ) → Cmd E S B (Unit {0})
  unfolding set_result
  set_value pp value free_value =
      set_result pp (record { error = pos 0; value = value; free_value = free_value })

  -- `UfsrvPromiseSetError`.
  unfoldable pub set_error : Ptr → ℤ → Cmd E S B (Unit {0})
  unfolding set_result
  set_error pp e = set_result pp (error_result e)

  -- `UfsrvPromiseDestroy`.
  unfoldable pub promise_destroy : Ptr → Cmd E S B (Unit {0})
  promise_destroy pp = if pp == null then pure tt else do
    q ← load_promise pp
    store_promise pp (some (record q { is_fulfilled = true }))
    if q.is_fulfilled
        then pure tt
        else (do _ ← future_complete host stack base call q.future (error_result epipe); pure tt)
    future_release host stack base q.future
    store_promise pp none

  -- `sMoveChainContinuation`: the result that it leaves in place of the one it takes.
  unfoldable pub move_chain_continuation :
      FutureResult → (out_promise : Ptr) → Cmd E S B FutureResult
  unfolding set_result promise_destroy
  move_chain_continuation result pp = set_result pp result >> promise_destroy pp >> pure no_result

  -- `UfsrvFutureFromValue` and `UfsrvFutureFromError`; `none` is NULL.
  unfoldable pub from_result :
      (fresh_future fresh_promise : Ptr) (continuations waiters : Option S)
      → FutureResult
      → Cmd E S B (Option Ptr)
  from_result fp pp cs ws result = do
    made ← promise_create host stack base true fp pp cs ws
    elim made [
      | none ↦ pure none
      | some (promise, future) ↦
          set_result promise result >> promise_destroy promise >> pure (some future)
    ]

  unfoldable pub from_value :
      (fresh_future fresh_promise : Ptr) (continuations waiters : Option S)
      → (value free_value : Option ℕ) → Cmd E S B (Option Ptr)
  unfolding from_result
  from_value fp pp cs ws value free_value =
      from_result fp pp cs ws (record { error = pos 0; value = value; free_value = free_value })

  unfoldable pub from_error :
      (fresh_future fresh_promise : Ptr) (continuations waiters : Option S)
      → ℤ
      → Cmd E S B (Option Ptr)
  unfolding from_result
  from_error fp pp cs ws e = from_result fp pp cs ws (error_result e)

  -- `sFutureCancelCallback` and `sFutureCancelRelease`.
  unfoldable pub cancel_callback : Ptr → Cmd E S B (Unit {0})
  cancel_callback p = do
    _ ← future_complete host stack base call p (error_result ecanceled)
    pure tt

  unfoldable pub cancel_release : Ptr → Cmd E S B (Unit {0})
  cancel_release p = future_release host stack base p

  -- The end of `UfsrvFutureAttachCancellation`, once the callback is registered.
  abbrev settle_handle : Ptr → ℕ → Cmd E S B Bool
  settle_handle p h = do
    f ← load_future p
    store_future p (some (record f { cancel_handle = some h }))
    g ← load_future p
    if g.is_completed
        then (do
          store_future p (some (record g { cancel_handle = none }))
          unregister_handle host stack base call g.cancel_handle)
        else pure tt
    pure true

  -- `UfsrvFutureAttachCancellation`. `register` is UfsrvCancellationTokenRegisterEx on the token, with
  -- the callbacks above for this future: it may run them, so it acts on the whole state.
  unfoldable pub attach_cancellation :
      (register : (token future : Ptr) → Cmd E S B (Option ℕ)) → Ptr → (token : ℕ) → Cmd E S B Bool
  unfolding future_retain future_release
  attach_cancellation register p t =
      if p == null then pure false else if t == null then pure false else do
        f ← load_future p
        if f.is_completed then pure false else if is_some f.cancel_token then pure false else do
          store_future p (some (record f { cancel_token = some t }))
          change_env (host.token_retain t)
          future_retain host stack base p
          handle ← register t p
          elim handle [
            | none ↦ do
              g ← load_future p
              store_future p (some (record g { cancel_token = none }))
              change_env (host.token_destroy t)
              future_release host stack base p
              pure false
            | some h ↦ settle_handle p h
          ]
