-- ===== src/Future/Combinators/Source.antt =====
-- The completion of a future with one continuation, which is one of ufsrv_future.c.
use ufsrvrxlib.Base.Memory.{not_null}
use ufsrvrxlib.Base.{
  ℕ, suc, ◌≡◌, refl, ◌≢◌, ◌∙◌, true, false, Option, none, some, List, [], ◌∷◌, arith,
}
use ufsrvrxlib.Future.Interface.{TreiberStack, NodeBase, FutureResult, Host}
use ufsrvrxlib.Future.Heap.{Call, Fn, Ptr, null, Future, Promise, Continuation, State, ok, write}
use ufsrvrxlib.Future.Pending.{Registration, Out, Queued-write, Drops, IsPending}
use ufsrvrxlib.Future.Deliver.{IsPlain}
use ufsrvrxlib.Future.Complete.{kept_refs, settled, opened, dropped-other, complete-opened}
use ufsrvrxlib.Future.{node_release, deliver, run_continuation, run_continuations, future_complete}
use ufsrvrxlib.Future.Combinators.{Program}
use ufsrvrxlib.Future.Combinators.Calls.{run_at, call_at}

module _ {E S B : Type 0} (host : Host E) (stack : TreiberStack S) (base : NodeBase B)
    (call : Call E S B) where
  -- The state in which a continuation is called: its node is claimed.
  abbrev pub claimed : State E S B → Ptr → Continuation B → State E S B
  claimed s a n = record s {
    conts = write s.conts a (some (record n { base = (base.claim n.base).1 }));
  }

  run_one :
      (s t : State E S B) (p a : Ptr) (f : Future S) (n : Continuation B)
      → p ≢ null
      → a ≢ null
      → s.futures p ≡ some f
      → s.conts a ≡ some n
      → base.refs n.base ≡ 1
      → base.claimed n.base ≡ false
      → call.run n.fn n.user f.result (claimed s a n) ≡ ok none t
      → t.conts a ≡ (claimed s a n).conts a
      → run_continuations host stack base call p (a ∷ []) s
        ≡ ok tt (record t { conts = write t.conts a none })
  unfolding run_continuations run_continuation node_release deliver
  run_one s t p a f n hp ha ef en one un ran still =
      let (granted, marked, kept) = base.claim-once n.base un in
      let last = base.release-last (base.claim n.base).1 (kept ∙ one) in
      let held : t.conts a ≡ some (record n { base = (base.claim n.base).1 }) =
        still ∙ ground arith in
      simp (not_null p hp, not_null a ha, ef, en, granted, ran, held, last)

  run_one_writing :
      (s t : State E S B) (p a : Ptr) (f g : Future S) (n : Continuation B) (left : FutureResult)
      → p ≢ null
      → a ≢ null
      → s.futures p ≡ some f
      → s.conts a ≡ some n
      → base.refs n.base ≡ 1
      → base.claimed n.base ≡ false
      → call.run n.fn n.user f.result (claimed s a n) ≡ ok (some left) t
      → t.futures p ≡ some g
      → t.conts a ≡ (claimed s a n).conts a
      → run_continuations host stack base call p (a ∷ []) s
        ≡ ok tt (record t {
          futures = write t.futures p (some (record g { result = left }));
          conts = write t.conts a none;
        })
  unfolding run_continuations run_continuation node_release deliver
  run_one_writing s t p a f g n left hp ha ef en one un ran eg still =
      let (granted, marked, kept) = base.claim-once n.base un in
      let last = base.release-last (base.claim n.base).1 (kept ∙ one) in
      let held : t.conts a ≡ some (record n { base = (base.claim n.base).1 }) =
        still ∙ ground arith in
      simp (not_null p hp, not_null a ha, ef, en, granted, ran, eg, held, last)

module _ {E S B : Type 0} (host : Host E) (stack : TreiberStack S) (base : NodeBase B)
    (program : Program E S B) (fuel : ℕ) where
  abbrev pub outer : Call E S B
  outer = call_at host stack base program (suc (suc fuel))

  abbrev pub inner : Call E S B
  inner = call_at host stack base program (suc fuel)

  pub outer-IsPlain : IsPlain host outer
  unfolding run_at
  outer-IsPlain g user r s = refl

  pub inner-IsPlain : IsPlain host inner
  unfolding run_at
  inner-IsPlain g user r s = refl

  -- A future that is not completed, where the only continuation is `fn`, at `a` with its context
  -- at `c`.
  pub record IsSource (fn : Fn) (s : State E S B) (p a c : Ptr) (f : Future S) (n : Continuation B)
      : Type 0 where
    pub ne_null : (p ≢ null) × (a ≢ null) × (c ≢ null)
    pub holds : s.futures p ≡ some f
    pub incomplete : f.is_completed ≡ false
    pub no_waiter : stack.items f.waiters ≡ []
    pub stacked : stack.items f.continuations ≡ a ∷ []
    pub node : s.conts a ≡ some n
    pub refs : base.refs n.base ≡ 1
    pub unclaimed : base.claimed n.base ≡ false
    pub continuation : (n.fn ≡ fn) × (n.user ≡ c)
    pub attached :
        (h : ℕ) → f.cancel_handle ≡ some h → (f.refcount ≢ 1) × Drops stack base host outer p h

  -- An output future that waits for its promise.
  pub record IsOutput (s : State E S B) (pp : Ptr) (q : Promise) (g : Future S)
      (rs : List Registration) : Type 0 where
    pub ne_null : pp ≢ null
    pub holds : s.promises pp ≡ some q
    pub fresh : q.is_fulfilled ≡ false
    pub pending : IsPending stack base host inner s q.future g rs
    pub shared : kept_refs g.cancel_handle g.refcount ≢ 1

  abbrev pub at_start :
      State E S B → Ptr → Ptr → Future S → Continuation B → FutureResult → State E S B
  at_start s p a f n r =
      claimed host stack base outer
        (opened host stack base outer outer-IsPlain s p f r f.cancel_handle) a n

  pub at_start-IsPending :
      (s : State E S B) (p a c : Ptr) (f : Future S) (n : Continuation B) (r : FutureResult)
      (o : Ptr) (g : Future S) (rs : List Registration)
      → o ≢ p
      → Out a rs
      → IsPending stack base host inner s o g rs
      → IsPending stack base host inner (at_start s p a f n r) o g rs
  at_start-IsPending s p a c f n r o g rs ne out w = record {
    ne_null = w.ne_null;
    holds =
        dropped-other host stack base outer outer-IsPlain s p o f r f.cancel_handle ne ∙ w.holds;
    incomplete = w.incomplete;
    unready = w.unready;
    unclosed = w.unclosed;
    stacked = w.stacked;
    queued = Queued-write stack base s.conts a _ rs out w.queued;
    distinct = w.distinct;
    no_waiter = w.no_waiter;
    attached = w.attached;
  }

  as_called :
      (fn : Fn) (n : Continuation B) (c : Ptr) (r : FutureResult) (s t : State E S B)
      (written : Option FutureResult)
      → n.fn ≡ fn
      → n.user ≡ c
      → outer.run fn c r s ≡ ok written t
      → outer.run n.fn n.user r s ≡ ok written t
  as_called fn n c r s t written same user ran = rw (same, user) ran

  pub complete_by :
      (fn : Fn) (s t : State E S B) (p a c : Ptr) (f : Future S) (n : Continuation B)
      (r : FutureResult)
      → IsSource fn s p a c f n
      → outer.run fn c r (at_start s p a f n r) ≡ ok none t
      → t.conts a ≡ (at_start s p a f n r).conts a
      → future_complete host stack base outer p r s
        ≡ ok true (record t { conts = write t.conts a none })
  complete_by fn s t p a c f n r source ran still =
      let one =
        run_one host stack base outer
          (opened host stack base outer outer-IsPlain s p f r f.cancel_handle) t p a
          (settled host stack base outer outer-IsPlain f r) n source.ne_null.0 source.ne_null.1
          (ground arith) source.node source.refs source.unclaimed
          (as_called fn n c r (at_start s p a f n r) t _ source.continuation.0 source.continuation.1
            ran)
          still in
      let begin =
        complete-opened host stack base outer outer-IsPlain s p f r f.cancel_handle source.ne_null.0
          source.holds source.incomplete source.no_waiter refl source.attached in
      let items : (stack.steal_all_and_close f.continuations).0 ≡ a ∷ [] =
        stack.steal-items f.continuations ∙ source.stacked in
      begin ∙ simp (items, one)

  pub complete_writing :
      (fn : Fn) (s t : State E S B) (p a c : Ptr) (f g : Future S) (n : Continuation B)
      (r left : FutureResult)
      → IsSource fn s p a c f n
      → outer.run fn c r (at_start s p a f n r) ≡ ok (some left) t
      → t.futures p ≡ some g
      → t.conts a ≡ (at_start s p a f n r).conts a
      → future_complete host stack base outer p r s
        ≡ ok true (record t {
          futures = write t.futures p (some (record g { result = left }));
          conts = write t.conts a none;
        })
  complete_writing fn s t p a c f g n r left source ran eg still =
      let one =
        run_one_writing host stack base outer
          (opened host stack base outer outer-IsPlain s p f r f.cancel_handle) t p a
          (settled host stack base outer outer-IsPlain f r) g n left source.ne_null.0
          source.ne_null.1 (ground arith) source.node source.refs source.unclaimed
          (as_called fn n c r (at_start s p a f n r) t _ source.continuation.0 source.continuation.1
            ran)
          eg still in
      let begin =
        complete-opened host stack base outer outer-IsPlain s p f r f.cancel_handle source.ne_null.0
          source.holds source.incomplete source.no_waiter refl source.attached in
      let items : (stack.steal_all_and_close f.continuations).0 ≡ a ∷ [] =
        stack.steal-items f.continuations ∙ source.stacked in
      begin ∙ simp (items, one)
