-- ===== src/Future/Combinators.antt =====
-- src/ufsrv_future/ufsrv_future.c: UfsrvFutureMap, FlatMap, OnError and DoOnSuccess, each with the
-- continuation that it registers. A continuation gives `some r` where it has written `r` over the
-- result that it was handed.
pub mod Gather
pub mod Keep
pub mod Move
pub mod Map
pub mod Source
pub mod Pass
pub mod Handover
pub mod Derive
pub mod Count
pub mod All
pub mod Abandon
pub mod Shortage
pub mod Denied
pub mod Leaked
pub mod Calls
use ufsrvrxlib.Base.{ℕ, zero, suc, Bool, true, false, not, Option, none, some, ◌==◌, if◌then◌else◌}
use ufsrvrxlib.Base.Int.{ℤ, pos, negsuc}
use ufsrvrxlib.Future.Interface.{TreiberStack, NodeBase, FutureResult, Host}
use ufsrvrxlib.Future.Heap.{
  Ptr, null, Fn, move_chain_fn, map_fn, flat_map_fn, on_error_fn, do_on_success_fn, Call,
  MapContext, FlatMapContext, OnErrorContext, DoOnSuccessContext, Context, a_map, a_flat_map,
  an_on_error, a_do_on_success, State, Run, ok, fault, Cmd, pure, ◌>>=◌, ◌>>◌, load_future,
  load_context, store_context, change_env,
}
use ufsrvrxlib.Future.{no_result, consume_once, then_on}
use ufsrvrxlib.Future.Promises.{
  promise_create, promise_destroy, set_result, set_value, set_error, future_release,
  attach_cancellation,
}

abbrev pub einval : ℤ
einval = pos 22

-- `error == 0`.
abbrev pub is_success : ℤ → Bool
is_success (pos zero) = true
is_success (pos (suc n)) = false
is_success (negsuc n) = false

-- The functions that a program passes to the combinators, what calloc returns, and what
-- UfsrvCancellationTokenRegisterEx and Unregister do for a token that is attached. `none` and `null`
-- are NULL.
pub record Program (E S B : Type 0) : Type 0 where
  pub mapper : (fn : ℕ) (value : Option ℕ) (user : ℕ) → Cmd E S B (Option ℕ)
  pub flat_mapper : (fn : ℕ) (value : Option ℕ) (user : ℕ) → Cmd E S B Ptr
  pub recovery : (fn : ℕ) (error : ℤ) (user : ℕ) → Cmd E S B Ptr
  pub action : (fn : ℕ) (value : Option ℕ) (user : ℕ) → Cmd E S B (Unit {0})
  pub zipper : (fn : ℕ) (first second : Option ℕ) (user : ℕ) → Cmd E S B (Option ℕ)
  pub calloc : Cmd E S B Ptr
  pub register : (token future : Ptr) → Cmd E S B (Option ℕ)
  pub unregister : (handle : ℕ) → Cmd E S B (Unit {0})

-- What the allocations of one combinator return.
pub record Fresh (S : Type 0) : Type 0 where
  pub future : Ptr
  pub promise : Ptr
  pub continuations : Option S
  pub waiters : Option S
  pub context : Ptr
  pub node : Ptr

module _ {E S B : Type 0} where
  abbrev pub load_map : Ptr → Cmd E S B MapContext
  load_map p = load_context p >>= λ c. elim c [ a_map m ↦ pure m | _ ↦ λ s. fault ]

  abbrev pub load_flat_map : Ptr → Cmd E S B FlatMapContext
  load_flat_map p = load_context p >>= λ c. elim c [ a_flat_map m ↦ pure m | _ ↦ λ s. fault ]

  abbrev pub load_on_error : Ptr → Cmd E S B OnErrorContext
  load_on_error p = load_context p >>= λ c. elim c [ an_on_error m ↦ pure m | _ ↦ λ s. fault ]

  abbrev pub load_do_on_success : Ptr → Cmd E S B DoOnSuccessContext
  load_do_on_success p =
      load_context p >>= λ c. elim c [ a_do_on_success m ↦ pure m | _ ↦ λ s. fault ]

module _ {E S B : Type 0} (host : Host E) (stack : TreiberStack S) (base : NodeBase B)
    (call : Call E S B) (program : Program E S B) where
  -- The output promise is given an error and destroyed.
  unfoldable pub fail_promise : Ptr → ℤ → Cmd E S B (Unit {0})
  fail_promise pp e = do
    set_error host stack base call pp e
    promise_destroy host stack base call pp

  -- The output promise is given a result and destroyed.
  unfoldable pub keep_promise : Ptr → FutureResult → Cmd E S B (Unit {0})
  keep_promise pp r = do
    set_result host stack base call pp r
    promise_destroy host stack base call pp

  -- The promise and the output future of a combinator that fails.
  unfoldable pub abandon : (promise future : Ptr) → Cmd E S B (Unit {0})
  abandon pp fp = do promise_destroy host stack base call pp; future_release host stack base fp

  -- The token of the input is attached to the output.
  unfoldable pub inherit_token : (input output : Ptr) → Cmd E S B (Unit {0})
  inherit_token p out = do
    f ← load_future p
    elim f.cancel_token [
      | none ↦ pure tt
      | some t ↦ (do _ ← attach_cancellation host stack base call program.register out t; pure tt)
    ]

  -- The body that Map, FlatMap, OnError and DoOnSuccess share behind their tests for NULL: `context`
  -- makes the context from the output promise.
  unfoldable pub derive :
      Fresh S → Ptr → Fn → (context : Ptr → Cmd E S B Context) → Cmd E S B (Option Ptr)
  unfolding abandon inherit_token
  derive fresh p fn context = do
    made ←
        promise_create host stack base true fresh.future fresh.promise fresh.continuations
          fresh.waiters
    elim made [
      | none ↦ pure none
      | some (pp, out) ↦ if fresh.context == null then abandon pp out >> pure none else (do
        c ← context pp
        store_context fresh.context (some c)
        registered ← then_on host stack base call fresh.node p fn fresh.context
        if registered
            then inherit_token p out >> pure (some out)
            else store_context fresh.context none >> abandon pp out >> pure none)
    ]

  -- `sMapContinuation`.
  unfoldable pub map_continuation : FutureResult → (context : Ptr) → Cmd E S B (Option FutureResult)
  unfolding fail_promise keep_promise
  map_continuation r p = do
    ctx ← load_map p
    if is_success r.error
        then (do
          mapped ← program.mapper ctx.mapper r.value ctx.user
          elim mapped [
            | none ↦ fail_promise ctx.out_promise (negsuc 0)
            | some v ↦
                keep_promise ctx.out_promise
                  (record { error = pos 0; value = some v; free_value = ctx.free_value })
          ])
        else fail_promise ctx.out_promise r.error
    store_context p none
    pure none

  -- `sFutureMap`, which is UfsrvFutureMapEx; UfsrvFutureMap passes `free`.
  unfoldable pub future_map :
      Fresh S
      → Ptr
      → (mapper : Option ℕ) (user : ℕ) (free_value : Option ℕ) → Cmd E S B (Option Ptr)
  unfolding derive
  future_map fresh p none user free_value = pure none
  future_map fresh p (some m) user free_value =
      if p == null
      then pure none
      else derive fresh p map_fn λ pp.
        pure (a_map (record { out_promise = pp; mapper = m; user = user; free_value = free_value }))

  -- `sDropContextToken`.
  unfoldable pub drop_context_token : Ptr → Cmd E S B (Unit {0})
  drop_context_token p = do
    ctx ← load_flat_map p
    elim ctx.token [
      | none ↦ pure tt
      | some t ↦ (do
        change_env (host.token_destroy t)
        store_context p (some (a_flat_map (record ctx { token = none }))))
    ]

  -- A future that a user function gave is followed: its result moves to the output promise, once.
  unfoldable pub follow : (next out_promise : Ptr) → Cmd E S B (Unit {0})
  unfolding fail_promise
  follow next pp = do
    first ← consume_once host stack base next
    if first
        then (do
          node ← program.calloc
          _ ← then_on host stack base call node next move_chain_fn pp
          pure tt)
        else fail_promise pp einval
    future_release host stack base next

  -- `sFlatMapContinuation`.
  unfoldable pub flat_map_continuation :
      FutureResult → (context : Ptr) → Cmd E S B (Option FutureResult)
  unfolding fail_promise drop_context_token follow
  flat_map_continuation r p = do
    ctx ← load_flat_map p
    if is_success r.error
        then (do
          next ← program.flat_mapper ctx.mapper r.value ctx.user
          if next == null
              then fail_promise ctx.out_promise (negsuc 0) >> drop_context_token p
              else (do
                elim ctx.token [
                  | none ↦ pure tt
                  | some t ↦ (do
                    _ ← attach_cancellation host stack base call program.register next t
                    drop_context_token p)
                ]
                follow next ctx.out_promise))
        else fail_promise ctx.out_promise r.error >> drop_context_token p
    store_context p none
    pure none

  -- `UfsrvFutureFlatMap`.
  unfoldable pub future_flat_map :
      Fresh S → Ptr → (mapper : Option ℕ) (user : ℕ) → Cmd E S B (Option Ptr)
  unfolding derive
  future_flat_map fresh p none user = pure none
  future_flat_map fresh p (some m) user =
      if p == null
      then pure none
      else derive fresh p flat_map_fn λ pp. (do
        f ← load_future p
        elim f.cancel_token [ none ↦ pure tt | some t ↦ change_env (host.token_retain t) ]
        pure (
            a_flat_map
              (record { out_promise = pp; mapper = m; user = user; token = f.cancel_token })))

  -- The result moves to the output promise, unless another operator took it.
  unfoldable pub move_result : Ptr → Ptr → FutureResult → Cmd E S B (Option FutureResult)
  unfolding fail_promise keep_promise
  move_result in_future pp r = do
    first ← consume_once host stack base in_future
    if first
        then keep_promise pp r >> pure (some no_result)
        else fail_promise pp einval >> pure none

  -- `sOnErrorContinuation`.
  unfoldable pub on_error_continuation :
      FutureResult → (context : Ptr) → Cmd E S B (Option FutureResult)
  unfolding fail_promise follow move_result
  on_error_continuation r p = do
    ctx ← load_on_error p
    written ←
        (if is_success r.error then move_result ctx.in_future ctx.out_promise r else (do
          recovered ← program.recovery ctx.recovery r.error ctx.user
          if recovered == null
              then fail_promise ctx.out_promise r.error
              else follow recovered ctx.out_promise
          pure none))
    store_context p none
    pure written

  -- `UfsrvFutureOnError`.
  unfoldable pub future_on_error :
      Fresh S → Ptr → (recovery : Option ℕ) (user : ℕ) → Cmd E S B (Option Ptr)
  unfolding derive
  future_on_error fresh p none user = pure none
  future_on_error fresh p (some g) user =
      if p == null
      then pure none
      else derive fresh p on_error_fn λ pp.
        pure (an_on_error (record { out_promise = pp; recovery = g; user = user; in_future = p }))

  -- `sDoOnSuccessContinuation`.
  unfoldable pub do_on_success_continuation :
      FutureResult → (context : Ptr) → Cmd E S B (Option FutureResult)
  unfolding move_result
  do_on_success_continuation r p = do
    ctx ← load_do_on_success p
    if is_success r.error then program.action ctx.action r.value ctx.user else pure tt
    written ← move_result ctx.in_future ctx.out_promise r
    store_context p none
    pure written

  -- `UfsrvFutureDoOnSuccess`.
  unfoldable pub future_do_on_success :
      Fresh S → Ptr → (action : Option ℕ) (user : ℕ) → Cmd E S B (Option Ptr)
  unfolding derive
  future_do_on_success fresh p none user = pure none
  future_do_on_success fresh p (some g) user =
      if p == null
      then pure none
      else derive fresh p do_on_success_fn λ pp.
        pure (a_do_on_success (record { out_promise = pp; action = g; user = user; in_future = p }))
