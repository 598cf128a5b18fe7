-- ===== src/Future/Combinators/Gather.antt =====
-- src/ufsrv_future/ufsrv_future.c: UfsrvFutureAll, Any and Zip, with their continuations. The arrays of
-- futures are lists; `none` is NULL.
use ufsrvrxlib.Base.{
  ℕ, zero, suc, ◌-◌, Bool, true, false, not, Option, none, some, List, [], ◌∷◌, ◌==◌, if◌then◌else◌,
  length,
}
use ufsrvrxlib.Base.Int.{ℤ, pos, negsuc}
use ufsrvrxlib.Future.Interface.{TreiberStack, NodeBase, FutureResult, Host}
use ufsrvrxlib.Future.Heap.{
  Ptr, null, all_fn, any_fn, zip_first_fn, zip_second_fn, Call, AllContext, AnyContext,
  AnyRegistration, ZipContext, an_all, an_any, a_registration, a_zip, fault, Cmd, pure, ◌>>=◌, ◌>>◌,
  load_context, store_context,
}
use ufsrvrxlib.Future.{no_result, future_then}
use ufsrvrxlib.Future.Promises.{promise_create, from_value, future_release, future_retain}
use ufsrvrxlib.Future.Combinators.{
  einval, is_success, Program, Fresh, fail_promise, keep_promise, abandon, move_result,
}

module _ {E S B : Type 0} where
  abbrev pub load_all : Ptr → Cmd E S B AllContext
  load_all p = load_context p >>= λ c. elim c [ an_all m ↦ pure m | _ ↦ λ s. fault ]

  abbrev pub load_any : Ptr → Cmd E S B AnyContext
  load_any p = load_context p >>= λ c. elim c [ an_any m ↦ pure m | _ ↦ λ s. fault ]

  abbrev pub load_registration : Ptr → Cmd E S B AnyRegistration
  load_registration p =
      load_context p >>= λ c. elim c [ a_registration m ↦ pure m | _ ↦ λ s. fault ]

  abbrev pub load_zip : Ptr → Cmd E S B ZipContext
  load_zip p = load_context p >>= λ c. elim c [ a_zip m ↦ pure m | _ ↦ λ s. fault ]

  -- `atomic_fetch_sub(&ctx->remaining, 1) == 1`.
  abbrev pub last_of_all : Ptr → Cmd E S B Bool
  last_of_all p = do
    c ← load_all p
    store_context p (some (an_all (record c { remaining = c.remaining - 1 })))
    pure (c.remaining == 1)

  abbrev pub last_of_any : Ptr → Cmd E S B Bool
  last_of_any p = do
    c ← load_any p
    store_context p (some (an_any (record c { remaining = c.remaining - 1 })))
    pure (c.remaining == 1)

  abbrev pub last_of_zip : Ptr → Cmd E S B Bool
  last_of_zip p = do
    c ← load_zip p
    store_context p (some (a_zip (record c { remaining = c.remaining - 1 })))
    pure (c.remaining == 1)

module _ {E S B : Type 0} (host : Host E) (stack : TreiberStack S) (base : NodeBase B)
    (call : Call E S B) (program : Program E S B) where
  -- The output is failed with an error, unless it was failed before.
  unfoldable pub fail_all : Ptr → ℤ → Cmd E S B (Unit {0})
  fail_all p e = do
    c ← load_all p
    store_context p (some (an_all (record c { failed = true })))
    if c.failed then pure tt else fail_promise host stack base call program c.out_promise e

  -- `sAllContinuation`.
  unfoldable pub all_continuation : FutureResult → (context : Ptr) → Cmd E S B (Option FutureResult)
  unfolding fail_all
  all_continuation r p = do
    if is_success r.error then pure tt else fail_all p r.error
    last ← last_of_all p
    if last
        then (do
          c ← load_all p
          if c.failed
              then pure tt
              else keep_promise host stack base call program c.out_promise no_result
          store_context p none)
        else pure tt
    pure none

  -- The loop of `UfsrvFutureAll`.
  pub register_all : (context : Ptr) → List Ptr → Cmd E S B (Unit {0})
  unfolding fail_all
  register_all p [] = pure tt
  register_all p (f ∷ fs) = do
    node ← program.calloc
    registered ← future_then host stack base call node f (some all_fn) p
    if registered then pure tt else (do
      fail_all p einval
      last ← last_of_all p
      if last then store_context p none else pure tt)
    register_all p fs

  -- The body behind the tests of `count` and `futures`.
  unfoldable pub gather_all : Fresh S → List Ptr → Cmd E S B (Option Ptr)
  unfolding register_all
  gather_all fresh fs = do
    made ←
        promise_create host stack base true fresh.future fresh.promise fresh.continuations
          fresh.waiters
    elim made [
      | none ↦ pure none
      | some (pp, out) ↦
          if fresh.context == null
          then abandon host stack base call program pp out >> pure none
          else (do
            store_context fresh.context
                (some (an_all (record { out_promise = pp; remaining = length fs; failed = false })))
            register_all fresh.context fs
            pure (some out))
    ]

  -- `UfsrvFutureAll`; `count` is the length of the array that is given.
  unfoldable pub future_all : Fresh S → (count : ℕ) → Option (List Ptr) → Cmd E S B (Option Ptr)
  unfolding gather_all
  future_all fresh zero fs =
      from_value host stack base call fresh.future fresh.promise fresh.continuations fresh.waiters
        none none
  future_all fresh (suc n) none = pure none
  future_all fresh (suc n) (some fs) = gather_all fresh fs

  -- The first input to complete gives its result to the output.
  unfoldable pub win : AnyRegistration → FutureResult → Cmd E S B (Option FutureResult)
  win reg r = do
    c ← load_any reg.ctx
    store_context reg.ctx (some (an_any (record c { claimed = true })))
    if c.claimed
        then pure none
        else move_result host stack base call program reg.in_future c.out_promise r

  -- `sAnyContinuation`.
  unfoldable pub any_continuation : FutureResult → (context : Ptr) → Cmd E S B (Option FutureResult)
  unfolding win
  any_continuation r p = do
    reg ← load_registration p
    store_context p none
    written ← win reg r
    last ← last_of_any reg.ctx
    if last then store_context reg.ctx none else pure tt
    pure written

  -- An input that cannot report: behind the last of them the output is failed.
  unfoldable pub lose : (context : Ptr) → Cmd E S B (Unit {0})
  lose p = do
    last ← last_of_any p
    if last
        then (do
          c ← load_any p
          if c.claimed
              then pure tt
              else fail_promise host stack base call program c.out_promise einval
          store_context p none)
        else pure tt

  -- The loop of `UfsrvFutureAny`.
  pub register_any : (context : Ptr) → List Ptr → Cmd E S B (Unit {0})
  unfolding lose
  register_any p [] = pure tt
  register_any p (f ∷ fs) = do
    reg ← program.calloc
    if reg == null then lose p else (do
      store_context reg (some (a_registration (record { ctx = p; in_future = f })))
      node ← program.calloc
      registered ← future_then host stack base call node f (some any_fn) reg
      if registered then pure tt else store_context reg none >> lose p)
    register_any p fs

  unfoldable pub gather_any : Fresh S → List Ptr → Cmd E S B (Option Ptr)
  unfolding register_any
  gather_any fresh fs = do
    made ←
        promise_create host stack base true fresh.future fresh.promise fresh.continuations
          fresh.waiters
    elim made [
      | none ↦ pure none
      | some (pp, out) ↦
          if fresh.context == null
          then abandon host stack base call program pp out >> pure none
          else (do
            store_context fresh.context (
                some (an_any (record { out_promise = pp; claimed = false; remaining = length fs })))
            register_any fresh.context fs
            pure (some out))
    ]

  -- `UfsrvFutureAny`.
  unfoldable pub future_any : Fresh S → (count : ℕ) → Option (List Ptr) → Cmd E S B (Option Ptr)
  unfolding gather_any
  future_any fresh zero fs =
      from_value host stack base call fresh.future fresh.promise fresh.continuations fresh.waiters
        none none
  future_any fresh (suc n) none = pure none
  future_any fresh (suc n) (some fs) = gather_any fresh fs

  -- `sZipComplete`.
  unfoldable pub zip_complete : (context : Ptr) → Cmd E S B (Unit {0})
  zip_complete p = do
    c ← load_zip p
    if not (is_success c.first.error)
        then fail_promise host stack base call program c.out_promise c.first.error
        else if not (is_success c.second.error)
        then fail_promise host stack base call program c.out_promise c.second.error
        else (do
          zipped ← program.zipper c.zipper c.first.value c.second.value c.user
          elim zipped [
            | none ↦ fail_promise host stack base call program c.out_promise (negsuc 0)
            | some v ↦
                keep_promise host stack base call program c.out_promise
                  (record { error = pos 0; value = some v; free_value = c.free_value })
          ])
    store_context p none
    future_release host stack base c.first_future
    future_release host stack base c.second_future

  -- `sZipFirstContinuation` and `sZipSecondContinuation`.
  unfoldable pub zip_first_continuation :
      FutureResult → (context : Ptr) → Cmd E S B (Option FutureResult)
  unfolding zip_complete
  zip_first_continuation r p = do
    c ← load_zip p
    store_context p (some (a_zip (record c { first = r })))
    last ← last_of_zip p
    if last then zip_complete p else pure tt
    pure none

  unfoldable pub zip_second_continuation :
      FutureResult → (context : Ptr) → Cmd E S B (Option FutureResult)
  unfolding zip_complete
  zip_second_continuation r p = do
    c ← load_zip p
    store_context p (some (a_zip (record c { second = r })))
    last ← last_of_zip p
    if last then zip_complete p else pure tt
    pure none

  -- `sFutureZip` behind its tests for NULL.
  unfoldable pub gather_zip :
      Fresh S
      → (first second : Ptr) → (zipper user : ℕ) (free_value : Option ℕ) → Cmd E S B (Option Ptr)
  gather_zip fresh a b z user free_value = do
    made ←
        promise_create host stack base true fresh.future fresh.promise fresh.continuations
          fresh.waiters
    elim made [
      | none ↦ pure none
      | some (pp, out) ↦
          if fresh.context == null
          then abandon host stack base call program pp out >> pure none
          else (do
            store_context fresh.context (
                some (
                  a_zip (record {
                    out_promise = pp;
                    zipper = z;
                    user = user;
                    first_future = a;
                    second_future = b;
                    first = no_result;
                    second = no_result;
                    remaining = 2;
                    free_value = free_value;
                  })))
            future_retain host stack base a
            future_retain host stack base b
            node ← program.calloc
            left ← future_then host stack base call node a (some zip_first_fn) fresh.context
            if not left then pure none else (do
              node' ← program.calloc
              right ← future_then host stack base call node' b (some zip_second_fn) fresh.context
              pure (if right then some out else none)))
    ]

  -- `sFutureZip`, which is UfsrvFutureZipEx; UfsrvFutureZip passes `free`.
  unfoldable pub future_zip :
      Fresh S
      → (first second : Ptr) → (zipper : Option ℕ) (user : ℕ) (free_value : Option ℕ)
      → Cmd E S B (Option Ptr)
  unfolding gather_zip
  future_zip fresh a b none user free_value = pure none
  future_zip fresh a b (some z) user free_value =
      if a == null
      then pure none
      else if b == null
      then pure none
      else gather_zip fresh a b z user free_value
