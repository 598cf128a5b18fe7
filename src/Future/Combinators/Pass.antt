-- ===== src/Future/Combinators/Pass.antt =====
-- The completion of a future that UfsrvFutureMap was called on, through to the output future.
use ufsrvrxlib.Base.{ℕ, ◌≡◌, sym, ◌≢◌, ◌∙◌, ◌-◌, true, none, some, List, arith}
use ufsrvrxlib.Future.Interface.{TreiberStack, NodeBase, FutureResult, Host}
use ufsrvrxlib.Future.Heap.{
  map_fn, Ptr, MapContext, a_map, Future, Promise, Continuation, State, ok, write,
}
use ufsrvrxlib.Future.Pending.{Registration, Out}
use ufsrvrxlib.Future.Deliver.{deliver_all}
use ufsrvrxlib.Future.Complete.{kept_refs, unregistered, settled, dropped-other}
use ufsrvrxlib.Future.{future_complete}
use ufsrvrxlib.Future.Combinators.{Program, map_continuation}
use ufsrvrxlib.Future.Combinators.Map.{Mapping, IsMapping, mapped, map_continuation-Mapped}
use ufsrvrxlib.Future.Combinators.Calls.{run_at}
use ufsrvrxlib.Future.Combinators.Source.{
  outer, inner, outer-IsPlain, inner-IsPlain, IsSource, IsOutput, at_start, at_start-IsPending,
  complete_by,
}

module _ {E S B : Type 0} (host : Host E) (stack : TreiberStack S) (base : NodeBase B)
    (program : Program E S B) (mapping : Mapping E) (maps : IsMapping program mapping)
    (fuel : ℕ) where
  pub record Passed (s : State E S B) (p a c : Ptr) (f : Future S) (m : MapContext) (q : Promise)
      (g : Future S) (rs : List Registration) (r : FutureResult) : Type 0 where
    pub last : State E S B
    pub last_future : Future S
    pub run :
        future_complete host stack base (outer host stack base program fuel) p r s ≡ ok true last
    pub source :
        last.futures p
        ≡ some (
            settled host stack base
              (outer host stack base program fuel)
              (outer-IsPlain host stack base program fuel)
              f
              r)
    pub holds : last.futures q.future ≡ some last_future
    pub count : last_future.refcount ≡ kept_refs g.cancel_handle g.refcount - 1
    pub flags : (last_future.is_completed ≡ true) × (last_future.is_ready ≡ true)
    pub delivered :
        (last_future.result, last.env)
        ≡ deliver_all host rs (
          (mapped mapping m r (unregistered host f.cancel_handle s.env)).0,
          unregistered host g.cancel_handle
              (mapped mapping m r (unregistered host f.cancel_handle s.env)).1,
        )
    pub freed :
        (last.conts a ≡ none) × (last.promises m.out_promise ≡ none) × (last.contexts c ≡ none)
    pub other_futures : (b : Ptr) → b ≢ p → b ≢ q.future → last.futures b ≡ s.futures b

  outer-map :
      (s t : State E S B) (c : Ptr) (r : FutureResult)
      → map_continuation host stack base (inner host stack base program fuel) program r c s
        ≡ ok none t
      → (outer host stack base program fuel).run map_fn c r s ≡ ok none t
  unfolding run_at
  outer-map s t c r ran = ran

  pub future_complete-Passed :
      (s : State E S B) (p a c : Ptr) (f : Future S) (n : Continuation B) (m : MapContext)
      (q : Promise) (g : Future S) (rs : List Registration) (r : FutureResult)
      → IsSource host stack base program fuel map_fn s p a c f n
      → s.contexts c ≡ some (a_map m)
      → IsOutput host stack base program fuel s m.out_promise q g rs
      → q.future ≢ p
      → Out a rs
      → Passed s p a c f m q g rs r
  future_complete-Passed s p a c f n m q g rs r source ec output ne out =
      let map =
        map_continuation-Mapped host stack base (inner host stack base program fuel)
          (inner-IsPlain host stack base program fuel) program mapping maps
          (at_start host stack base program fuel s p a f n r) c m q g rs r source.ne_null.2 ec
          output.ne_null output.holds output.fresh
          (at_start-IsPending host stack base program fuel s p a c f n r q.future g rs ne out
            output.pending)
          output.shared in
      record {
        last = record (map.last) { conts = write map.last.conts a none };
        last_future = map.last_future;
        run =
            complete_by host stack base program fuel map_fn s map.last p a c f n r source
              (outer-map (at_start host stack base program fuel s p a f n r) map.last c r map.run)
              (map.other_nodes a out);
        source = map.other_futures p (λ same. ne (sym same)) ∙ ground arith;
        holds = map.holds;
        count = map.count;
        flags = map.flags;
        delivered = map.delivered;
        freed = (ground arith, map.freed.0, map.freed.1);
        other_futures = λ b bp bq.
            map.other_futures b bq
            ∙ dropped-other host stack base (outer host stack base program fuel)
                (outer-IsPlain host stack base program fuel) s p b f r f.cancel_handle bp;
      }
