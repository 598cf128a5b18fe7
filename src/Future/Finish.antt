-- ===== src/Future/Finish.antt =====
-- sFutureComplete on a future that nobody has completed, with whoever waits for it.
use ufsrvrxlib.Base.Memory.{not_null, same_ptr}
use ufsrvrxlib.Base.{
  ℕ, ◌≡◌, refl, ap, ◌≢◌, ◌∙◌, true, false, Option, none, some, List, [], arith, All,
}
use ufsrvrxlib.Future.Interface.{TreiberStack, NodeBase, FutureResult, Host}
use ufsrvrxlib.Future.Heap.{Call, Ptr, null, Future, State, ok}
use ufsrvrxlib.Future.Pending.{Registration, Out, Distinct, Queued, addresses}
use ufsrvrxlib.Future.Deliver.{IsPlain, deliver_all, Drained, run_continuations-Drained}
use ufsrvrxlib.Future.Complete.{unregistered, put, bare, cleared}
use ufsrvrxlib.Future.Detach.{Detaches, IsAwaited}
use ufsrvrxlib.Future.Awaited.{
  Awaiting, spots, Away, Apart, Ready, IsLeft, wake_all, Roused, wake_waiters-Roused,
}
use ufsrvrxlib.Future.{unregister_handle, drain_waiters, drain_continuations, future_complete}

module _ {E S B : Type 0} (host : Host E) (stack : TreiberStack S) (base : NodeBase B)
    (call : Call E S B) (plain : IsPlain host call) where
  -- The future is `b` and the environment `e`; everything else is as it was.
  record Unhooked (s : State E S B) (p : Ptr) (b : Future S) (e : E) (t : State E S B)
      : Type 0 where
    at : t.futures p ≡ some b
    others : (q : Ptr) → q ≢ p → t.futures q ≡ s.futures q
    env : t.env ≡ e
    conts : t.conts ≡ s.conts
    waiting : t.waiting ≡ s.waiting
    promises : t.promises ≡ s.promises
    contexts : t.contexts ≡ s.contexts

  unregister_handle-Unhooked :
      (s : State E S B) (p : Ptr) (f : Future S) (result : FutureResult) (handle : Option ℕ) (n : ℕ)
      → Detaches host stack base call p handle f.refcount n
      → (t : State E S B) × (unregister_handle host stack base call handle
            (cleared host stack base call plain s p f result)
          ≡ ok tt t)
        × Unhooked s p
            (record (bare host stack base call plain f result) { refcount = n })
            (unregistered host handle s.env)
            t
  unregister_handle-Unhooked s p f result none n same = (
    _,
    refl,
    record {
      at = simp (same, same_ptr p);
      others = λ q ne. ground arith;
      env = refl;
      conts = refl;
      waiting = refl;
      promises = refl;
      contexts = refl;
    },
  )
  unregister_handle-Unhooked s p f result (some h) n (_, run) = (
    _,
    run (cleared host stack base call plain s p f result) (bare host stack base call plain f result)
        (ground arith) refl,
    record {
      at = simp (same_ptr p);
      others = λ q ne. ground arith;
      env = refl;
      conts = refl;
      waiting = refl;
      promises = refl;
      contexts = refl;
    },
  )

  drain_waiters-Roused :
      (s : State E S B) (p : Ptr) (b : Future S) (ws : List (Awaiting B)) (e : E)
      → p ≢ null
      → s.futures p ≡ some b
      → stack.items b.waiters ≡ spots ws
      → Ready host stack base s.waiting ws
      → Apart ws
      → wake_all host stack base ws s.env ≡ some e
      → (t : State E S B) × (drain_waiters host stack base p s ≡ ok tt t)
        × Roused host stack base
            (put host stack base call plain p
              (record b { waiters = (stack.steal_all_and_close b.waiters).1 })
              s)
            ws
            e
            t
  unfolding drain_waiters
  drain_waiters-Roused s p b ws e hp at waited ready apart woken =
      let (t, run, left) =
        wake_waiters-Roused host stack base
          (put host stack base call plain p
            (record b { waiters = (stack.steal_all_and_close b.waiters).1 }) s)
          ws e ready apart woken in
      let stolen : (stack.steal_all_and_close b.waiters).0 ≡ spots ws =
        stack.steal-items b.waiters ∙ waited in
      (t, simp (not_null p hp, at, stolen, run), left)

  drain_continuations-Drained :
      (s : State E S B) (p : Ptr) (b : Future S) (rs : List Registration)
      → p ≢ null
      → s.futures p ≡ some b
      → stack.items b.continuations ≡ addresses rs
      → Queued stack base s.conts rs
      → Distinct rs
      → (t : State E S B) × (drain_continuations host stack base call p s ≡ ok tt t)
        × Drained host stack base call plain
            (put host stack base call plain p
              (record b { continuations = (stack.steal_all_and_close b.continuations).1 })
              s)
            p
            (record b { continuations = (stack.steal_all_and_close b.continuations).1 })
            rs
            t
  unfolding drain_continuations
  drain_continuations-Drained s p b rs hp at stacked queued distinct =
      let c = record b { continuations = (stack.steal_all_and_close b.continuations).1 } in
      let (t, run, left) =
        run_continuations-Drained host stack base call plain (put host stack base call plain p c s)
          p c rs hp (simp (same_ptr p)) queued distinct in
      let stolen : (stack.steal_all_and_close b.continuations).0 ≡ addresses rs =
        stack.steal-items b.continuations ∙ stacked in
      (t, simp (not_null p hp, at, stolen, run), left)

  future_complete-drains :
      (s t u v : State E S B) (p : Ptr) (f : Future S) (result : FutureResult)
      → p ≢ null
      → s.futures p ≡ some f
      → f.is_completed ≡ false
      → unregister_handle host stack base call f.cancel_handle
          (cleared host stack base call plain s p f result)
        ≡ ok tt t
      → drain_waiters host stack base p t ≡ ok tt u
      → drain_continuations host stack base call p u ≡ ok tt v
      → future_complete host stack base call p result s ≡ ok true v
  unfolding future_complete
  future_complete-drains s t u v p f result hp at open_yet freed roused drained =
      simp (not_null p hp, at, open_yet, same_ptr p, freed, roused, drained)

  -- What the completion leaves behind; `e` is the environment with the waiters woken.
  pub record Finished (s : State E S B) (p : Ptr) (f : Future S) (rs : List Registration)
      (ws : List (Awaiting B)) (after : ℕ) (result : FutureResult) (e : E) : Type 0 where
    pub last : State E S B
    pub last_future : Future S
    pub run : future_complete host stack base call p result s ≡ ok true last
    pub holds : last.futures p ≡ some last_future
    pub flags : (last_future.is_completed ≡ true) × (last_future.is_ready ≡ true)
    pub closed :
        (stack.is_closed last_future.continuations ≡ true)
        × (stack.is_closed last_future.waiters ≡ true)
    pub emptied :
        (stack.items last_future.continuations ≡ []) × (stack.items last_future.waiters ≡ [])
    pub unhandled : last_future.cancel_handle ≡ none
    pub kept :
        (last_future.refcount ≡ after)
        × ((last_future.cancel_token ≡ f.cancel_token) × (last_future.is_consumed ≡ f.is_consumed))
    pub delivered : (last_future.result, last.env) ≡ deliver_all host rs (result, e)
    pub left : All (λ w. IsLeft host stack base w (last.waiting w.at)) ws
    pub other_waiters : (a : Ptr) → Away a ws → last.waiting a ≡ s.waiting a
    pub freed : All (λ r. last.conts r.at ≡ none) rs
    pub other_nodes : (a : Ptr) → Out a rs → last.conts a ≡ s.conts a
    pub other_futures : (q : Ptr) → q ≢ p → last.futures q ≡ s.futures q
    pub promises : last.promises ≡ s.promises
    pub contexts : last.contexts ≡ s.contexts

  -- `sFutureComplete` on a future that nobody has completed returns true. It unregisters the handle,
  -- wakes each waiter that no cancellation has claimed, in order, and then calls each continuation once,
  -- the newest first, each on the result as the one before left it. The future is completed and ready,
  -- with no handle, and both its stacks are closed and empty. Each waiter is freed, or claimed with one
  -- reference less; the nodes of the continuations are freed; no other waiter, node, future, promise or
  -- context is touched. The continuations are the program's own and act on the rest of the program only;
  -- each scheduler takes the coroutine that it is handed. The hook that drops the handle's reference may
  -- run at once or later.
  pub future_complete-Finished :
      (s : State E S B) (p : Ptr) (f : Future S) (rs : List Registration) (ws : List (Awaiting B))
      (after : ℕ) (result : FutureResult) (e : E)
      → IsAwaited host stack base call s p f rs ws after
      → wake_all host stack base ws (unregistered host f.cancel_handle s.env) ≡ some e
      → Finished s p f rs ws after result e
  future_complete-Finished s p f rs ws after result e w woken =
      let b : Future S = record (bare host stack base call plain f result) { refcount = after } in
      let (t, freed, d) =
        unregister_handle-Unhooked s p f result f.cancel_handle after w.detaches in
      let (u, roused, r) =
        drain_waiters-Roused t p b ws e w.ne_null d.at w.waited (rw (d.waiting) w.ready) w.apart
          (rw (d.env) woken) in
      let b' : Future S = record b { waiters = (stack.steal_all_and_close f.waiters).1 } in
      let at : u.futures p ≡ some b' = ap (λ h. h p) r.futures ∙ simp (same_ptr p) in
      let (v, drained, l) =
        drain_continuations-Drained u p b' rs w.ne_null at w.stacked
          (rw (r.conts ∙ d.conts) w.queued) w.distinct in
      record {
        last = v;
        last_future = record b' {
          continuations = (stack.steal_all_and_close f.continuations).1;
          result = (deliver_all host rs (result, u.env)).0;
        };
        run =
            future_complete-drains s t u v p f result w.ne_null w.holds w.incomplete freed roused
              drained;
        holds = l.future;
        flags = (refl, refl);
        closed = ((stack.steal-closes f.continuations).1, (stack.steal-closes f.waiters).1);
        emptied = ((stack.steal-closes f.continuations).0, (stack.steal-closes f.waiters).0);
        unhandled = refl;
        kept = (refl, (refl, refl));
        delivered =
            ap (λ env. ((deliver_all host rs (result, u.env)).0, env)) l.env
            ∙ ap (λ env. deliver_all host rs (result, env)) r.env;
        left = rw (l.waiting) r.left;
        other_waiters =
            λ a out. ap (λ h. h a) l.waiting ∙ r.elsewhere a out ∙ ap (λ h. h a) d.waiting;
        freed = l.freed;
        other_nodes = λ a out. l.other_nodes a out ∙ ap (λ h. h a) (r.conts ∙ d.conts);
        other_futures = λ q ne.
            l.other_futures q ne
            ∙ ground (arith, ne)
            ∙ ap (λ h. h q) r.futures
            ∙ ground (arith, ne)
            ∙ d.others q ne;
        promises = l.promises ∙ r.promises ∙ d.promises;
        contexts = l.contexts ∙ r.contexts ∙ d.contexts;
      }
