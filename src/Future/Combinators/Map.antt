-- ===== src/Future/Combinators/Map.antt =====
-- sMapContinuation, and the completion of a future that UfsrvFutureMap was called on.
use ufsrvrxlib.Base.Memory.{not_null}
use ufsrvrxlib.Base.{ℕ, ◌≡◌, refl, ◌≢◌, ◌-◌, Bool, true, false, Option, none, some, List, arith}
use ufsrvrxlib.Base.Int.{pos, negsuc}
use ufsrvrxlib.Future.Interface.{TreiberStack, NodeBase, FutureResult, Host}
use ufsrvrxlib.Future.Heap.{Call, Ptr, null, MapContext, a_map, Future, Promise, State, ok, write}
use ufsrvrxlib.Future.Pending.{Registration, Out, IsPending, IsPending-same}
use ufsrvrxlib.Future.Deliver.{IsPlain, deliver_all}
use ufsrvrxlib.Future.Complete.{kept_refs, unregistered}
use ufsrvrxlib.Future.{error_result}
use ufsrvrxlib.Future.Promises.{set_error}
use ufsrvrxlib.Future.Combinators.{
  Program, is_success, fail_promise, keep_promise, map_continuation,
}
use ufsrvrxlib.Future.Combinators.Keep.{keep_promise_pending}

-- A mapper that reads and changes the rest of the program only.
abbrev pub Mapping : Type 0 → Type 0
Mapping E = (fn : ℕ) (value : Option ℕ) (user : ℕ) → E → Option ℕ × E

abbrev pub IsMapping : {E S B : Type 0} → Program E S B → Mapping E → Type 0
IsMapping {E} {S} {B} program mapping =
    (g : ℕ) (v : Option ℕ) (u : ℕ) (s : State E S B)
    → program.mapper g v u s
      ≡ ok (mapping g v u s.env).0 (record s { env = (mapping g v u s.env).1 })

-- What the output of a map gets: the mapped value, the error of the input, or -1 where the mapper gives
-- NULL.
abbrev value_result : Option ℕ → Option ℕ → FutureResult
value_result free none = error_result (negsuc 0)
value_result free (some v) = record { error = pos 0; value = some v; free_value = free }

abbrev mapped_by :
    {E : Type 0} → Mapping E → MapContext → FutureResult → Bool → E → FutureResult × E
mapped_by mapping m r true env = (
  value_result m.free_value (mapping m.mapper r.value m.user env).0,
  (mapping m.mapper r.value m.user env).1,
)
mapped_by mapping m r false env = (error_result r.error, env)

abbrev pub mapped : {E : Type 0} → Mapping E → MapContext → FutureResult → E → FutureResult × E
mapped mapping m r env = mapped_by mapping m r (is_success r.error) env

module _ {E S B : Type 0} (host : Host E) (stack : TreiberStack S) (base : NodeBase B)
    (call : Call E S B) (plain : IsPlain host call) (program : Program E S B) (mapping : Mapping E)
    (maps : IsMapping program mapping) where
  -- What a map continuation leaves behind.
  pub record Mapped (s : State E S B) (c : Ptr) (m : MapContext) (q : Promise) (f : Future S)
      (rs : List Registration) (r : FutureResult) : Type 0 where
    pub last : State E S B
    pub last_future : Future S
    pub run : map_continuation host stack base call program r c s ≡ ok none last
    pub holds : last.futures q.future ≡ some last_future
    pub count : last_future.refcount ≡ kept_refs f.cancel_handle f.refcount - 1
    pub flags : (last_future.is_completed ≡ true) × (last_future.is_ready ≡ true)
    pub delivered :
        (last_future.result, last.env)
        ≡ deliver_all host rs (
          (mapped mapping m r s.env).0,
          unregistered host f.cancel_handle (mapped mapping m r s.env).1,
        )
    pub freed : (last.promises m.out_promise ≡ none) × (last.contexts c ≡ none)
    pub other_futures : (a : Ptr) → a ≢ q.future → last.futures a ≡ s.futures a
    pub other_nodes : (a : Ptr) → Out a rs → last.conts a ≡ s.conts a

  abbrev with_env : State E S B → E → State E S B
  with_env s env = record s { env = env }

  map_run :
      (s t : State E S B) (c : Ptr) (m : MapContext) (r : FutureResult) (v : Option ℕ)
      (ready : Bool)
      → c ≢ null
      → s.contexts c ≡ some (a_map m)
      → is_success r.error ≡ ready
      → (mapping m.mapper r.value m.user s.env).0 ≡ v
      → keep_promise host stack base call program m.out_promise
          (mapped_by mapping m r ready s.env).0
          (with_env s (mapped_by mapping m r ready s.env).1)
        ≡ ok tt t
      → map_continuation host stack base call program r c s
        ≡ ok none (record t { contexts = write t.contexts c none })
  unfolding map_continuation fail_promise keep_promise set_error
  map_run s t c m r v false hc e ok_ given kept = simp (not_null c hc, e, ok_, kept)
  map_run s t c m r none true hc e ok_ given kept =
      let kept2 = simp given at kept in simp (not_null c hc, e, ok_, maps, given, kept2)
  map_run s t c m r (some v) true hc e ok_ given kept =
      let kept2 = simp given at kept in simp (not_null c hc, e, ok_, maps, given, kept2)

  -- With a mapper that acts on the rest of the program only: the continuation that UfsrvFutureMap
  -- registers, called on a result while its output promise is
  -- unfulfilled and the output future pending with a reference that is not the promise's own: the output
  -- future gets the mapped value with the destructor of the context, -1 where the mapper gives NULL, or
  -- the input's error where it has one. Its continuations are called on that exactly once, the newest
  -- first; the promise and the context are freed, and no other future is touched.
  pub map_continuation-Mapped :
      (s : State E S B) (c : Ptr) (m : MapContext) (q : Promise) (f : Future S)
      (rs : List Registration) (r : FutureResult)
      → c ≢ null
      → s.contexts c ≡ some (a_map m)
      → m.out_promise ≢ null
      → s.promises m.out_promise ≡ some q
      → q.is_fulfilled ≡ false
      → IsPending stack base host call s q.future f rs
      → kept_refs f.cancel_handle f.refcount ≢ 1
      → Mapped s c m q f rs r
  map_continuation-Mapped s c m q f rs r hc e hp ep fresh pending more =
      let given = mapped mapping m r s.env in
      let done =
        keep_promise_pending host stack base call plain program (with_env s given.1) m.out_promise q
          f rs given.0 hp ep fresh
          (IsPending-same stack base host call s (with_env s given.1) q.future f rs refl refl
            pending)
          more in
      record {
        last = record (done.last) { contexts = write done.last.contexts c none };
        last_future = done.last_future;
        run =
            map_run s done.last c m r (mapping m.mapper r.value m.user s.env).0 (is_success r.error)
              hc e refl refl done.run;
        holds = done.holds;
        count = done.count;
        flags = done.flags;
        delivered = done.delivered;
        freed = (done.freed, ground arith);
        other_futures = done.other_futures;
        other_nodes = done.other_nodes;
      }
