-- ===== src/Future/Wait/Answer.antt =====
-- A future with one wait on it, and UfsrvPromiseSetResult of its promise.
use ufsrvrxlib.Base.{◌≡◌, ap, ◌≢◌, ◌∙◌, true, false, none, some, [], ◌∷◌, arith}
use ufsrvrxlib.Future.Interface.{TreiberStack, NodeBase, FutureResult, Host}
use ufsrvrxlib.Future.Heap.{Call, Ptr, null, Future, Promise, Waiter, State, ok, write}
use ufsrvrxlib.Future.Deliver.{IsPlain}
use ufsrvrxlib.Future.Complete.{kept_refs, unregistered, settled}
use ufsrvrxlib.Future.Fulfil.{marked, set_result-run}
use ufsrvrxlib.Future.{wake_waiter}
use ufsrvrxlib.Future.Promises.{set_result}
use ufsrvrxlib.Future.Wait.Wake.{IsIdle, spent, IsAwaited, future_complete-wakes}

module _ {E S B : Type 0} (host : Host E) (stack : TreiberStack S) (base : NodeBase B)
    (call : Call E S B) (plain : IsPlain host call) where
  -- Such a future, and the promise that it belongs to.
  pub record IsUnanswered (s : State E S B) (pp : Ptr) (f : Future S) (q : Promise) : Type 0 where
    pub ne_null : pp ≢ null
    pub future : IsIdle host stack base call plain s q.future f
    pub promised : (s.promises pp ≡ some q) × (q.is_fulfilled ≡ false)

  -- The state in which a waiter stands in the stack.
  abbrev pub waiting_on : State E S B → Ptr → Ptr → Future S → Waiter B → S → State E S B
  waiting_on s p a f w ws = record s {
    waiting = write s.waiting a (some w);
    futures = write s.futures p (some (record f { waiters = ws }));
  }

  abbrev pub Answered :
      State E S B → Ptr → Future S → Waiter B → S → Ptr → Promise → FutureResult → E → Type 0
  Answered s a f w ws pp q r env =
      (t : State E S B) × (set_result host stack base call pp r (waiting_on s q.future a f w ws)
        ≡ ok tt t)
      × (t.futures q.future
          ≡ some (settled host stack base call plain (record f { waiters = ws }) r))
      × (t.waiting a ≡ some (spent host stack base w))
      × (t.env ≡ env)
      × ((b : Ptr) → b ≢ a → t.waiting b ≡ s.waiting b)

  pub set_result-answers :
      (s : State E S B) (pp a : Ptr) (f : Future S) (q : Promise) (w : Waiter B) (ws : S)
      (r : FutureResult) (env : E)
      → IsUnanswered s pp f q
      → a ≢ null
      → w.base ≡ base.init
      → stack.items ws ≡ a ∷ []
      → ((t : State E S B)
          → t.env ≡ unregistered host f.cancel_handle s.env
          → wake_waiter host stack base w t ≡ ok tt (record t { env = env }))
      → Answered s a f w ws pp q r env
  set_result-answers s pp a f q w ws r env v ha new items wakes =
      let (ep, fresh) = v.promised in
      let awaited : IsAwaited host stack base call plain
          (marked host stack base call plain (waiting_on s q.future a f w ws) pp q) q.future a
          (record f { waiters = ws }) w =
        record {
          ne_null = (v.future.ne_null, ha);
          holds = ground arith;
          incomplete = v.future.incomplete;
          waits = items;
          idle = v.future.alone.1;
          waiter = ground arith;
          attached = v.future.attached;
        } in
      let woke =
        future_complete-wakes host stack base call plain
          (marked host stack base call plain (waiting_on s q.future a f w ws) pp q) q.future a
          (record f { waiters = ws }) w r env awaited (ap base.refs new ∙ base.init-fresh.0)
          (ap base.claimed new ∙ base.init-fresh.1) wakes in
      (
        woke.last,
        set_result-run host stack base call plain (waiting_on s q.future a f w ws) woke.last pp q r
            v.ne_null ep fresh woke.run,
        woke.holds,
        woke.waiter,
        woke.env,
        λ b ne. woke.other_waiters b ne ∙ ground arith,
      )

  pub spent-last :
      (w : Waiter B) → w.base ≡ base.init → (base.release (spent host stack base w).base).0 ≡ true
  spent-last w new =
      let (granted, marked_once, kept) =
        base.claim-once w.base (ap base.claimed new ∙ base.init-fresh.1) in
      let (more, one, claimed) =
        base.release-more (base.claim w.base).1 0 (kept ∙ ap base.refs new ∙ base.init-fresh.0) in
      base.release-last (spent host stack base w).base one

  -- What a wait that was answered leaves behind.
  pub record Got (s : State E S B) (a : Ptr) (q : Promise) (f : Future S) (r : FutureResult)
      (Returned : State E S B → Type 0) (env_after : E) : Type 0 where
    pub last : State E S B
    pub last_future : Future S
    pub returned : Returned last
    pub holds : last.futures q.future ≡ some last_future
    pub flags : (last_future.is_completed ≡ true) × (last_future.is_ready ≡ true)
    pub result : last_future.result ≡ r
    pub count : last_future.refcount ≡ kept_refs f.cancel_handle f.refcount
    pub freed : last.waiting a ≡ none
    pub env : last.env ≡ env_after
    pub other_waiters : (b : Ptr) → b ≢ a → last.waiting b ≡ s.waiting b
