-- ===== src/Future/Ready.antt =====
-- UfsrvFutureFromValue and UfsrvFutureFromError: a future that is ready from the start.
use ufsrvrxlib.Base.Memory.{not_null}
use ufsrvrxlib.Base.{◌≡◌, refl, ap, ◌≢◌, true, false, none, some, [], arith}
use ufsrvrxlib.Future.Interface.{TreiberStack, NodeBase, FutureResult, Host}
use ufsrvrxlib.Future.Heap.{Call, Ptr, null, Future, State, ok, write}
use ufsrvrxlib.Future.Pending.{IsPending}
use ufsrvrxlib.Future.Deliver.{IsPlain}
use ufsrvrxlib.Future.Fulfil.{set_result-run}
use ufsrvrxlib.Future.Detach.{IsPending-IsAwaited}
use ufsrvrxlib.Future.Finish.{future_complete-Finished}
use ufsrvrxlib.Future.{no_result}
use ufsrvrxlib.Future.Promises.{
  promise_create, set_result, promise_destroy, future_release, from_result,
}

module _ {E S B : Type 0} (host : Host E) (stack : TreiberStack S) (base : NodeBase B)
    (call : Call E S B) (plain : IsPlain host call) where
  abbrev created : Future S
  created = record {
    is_completed = false;
    is_consumed = false;
    is_ready = false;
    result = no_result;
    continuations = stack.create;
    waiters = stack.create;
    refcount = 2;
    cancel_token = none;
    cancel_handle = none;
  }

  abbrev started : State E S B → (fp pp : Ptr) → State E S B
  started s fp pp = record s {
    futures = write s.futures fp (some created);
    promises = write s.promises pp (some (record { future = fp; is_fulfilled = false }));
  }

  abbrev marked : State E S B → (fp pp : Ptr) → State E S B
  marked s fp pp = record (started s fp pp) {
    promises =
        write (started s fp pp).promises pp (some (record { future = fp; is_fulfilled = true }));
  }

  marked-IsPending :
      (s : State E S B) (fp pp : Ptr)
      → fp ≢ null
      → IsPending stack base host call (marked s fp pp) fp created []
  marked-IsPending s fp pp hf = record {
    ne_null = hf;
    holds = ground arith;
    incomplete = refl;
    unready = refl;
    unclosed = stack.create-empty.1;
    stacked = stack.create-empty.0;
    queued = tt;
    distinct = tt;
    no_waiter = stack.create-empty.0;
    attached = λ h e. cc;
  }

  abbrev finished : State E S B → (fp pp : Ptr) → Future S → State E S B
  finished t fp pp g = record t {
    futures = write t.futures fp (some (record g { refcount = 1 }));
    promises =
        write (write t.promises pp (some (record { future = fp; is_fulfilled = true }))) pp none;
  }

  from_result-run :
      (s t : State E S B) (fp pp : Ptr) (g : Future S) (result : FutureResult)
      → fp ≢ null
      → pp ≢ null
      → set_result host stack base call pp result (started s fp pp) ≡ ok tt t
      → t.promises pp ≡ some (record { future = fp; is_fulfilled = true })
      → t.futures fp ≡ some g
      → g.refcount ≡ 2
      → from_result host stack base call fp pp (some stack.create) (some stack.create) result s
        ≡ ok (some fp) (finished t fp pp g)
  unfolding from_result promise_create promise_destroy future_release
  from_result-run s t fp pp g result hf hp ran ep eg two =
      simp (not_null pp hp, not_null fp hf, ran, ep, eg, two)

  -- What `from_result` leaves behind.
  pub record Made (s : State E S B) (fp pp : Ptr) (given : FutureResult) : Type 0 where
    pub last : State E S B
    pub last_future : Future S
    pub run :
        from_result host stack base call fp pp (some stack.create) (some stack.create) given s
        ≡ ok (some fp) last
    pub holds : last.futures fp ≡ some last_future
    pub result : last_future.result ≡ given
    pub flags : (last_future.is_completed ≡ true) × (last_future.is_ready ≡ true)
    pub count : last_future.refcount ≡ 1
    pub freed : last.promises pp ≡ none
    pub env : last.env ≡ s.env

  -- `UfsrvFutureFromValue` and `UfsrvFutureFromError`, where every allocation succeeds, return a
  -- future that is ready, holds the result that was given and has one reference; the promise behind
  -- it is freed, and nothing else of the program has run.
  pub from_result-Made :
      (s : State E S B) (fp pp : Ptr) (given : FutureResult)
      → fp ≢ null
      → pp ≢ null
      → Made s fp pp given
  from_result-Made s fp pp given hf hp =
      let done =
        future_complete-Finished host stack base call plain (marked s fp pp) fp created [] [] 2
          given s.env
          (IsPending-IsAwaited host stack base call (marked s fp pp) fp created []
            (marked-IsPending s fp pp hf))
          refl in
      let ran =
        set_result-run host stack base call plain (started s fp pp) done.last pp
          (record { future = fp; is_fulfilled = false }) given hp (ground arith) refl done.run in
      let fulfilled : done.last.promises pp ≡ some (record { future = fp; is_fulfilled = true }) =
        ground (arith, done.promises) in
      record {
        last = finished done.last fp pp done.last_future;
        last_future = record done.last_future { refcount = 1 };
        run =
            from_result-run s done.last fp pp done.last_future given hf hp ran fulfilled done.holds
              done.kept.0;
        holds = ground arith;
        result = ap (λ x. x.0) done.delivered;
        flags = done.flags;
        count = refl;
        freed = ground arith;
        env = ap (λ x. x.1) done.delivered;
      }
