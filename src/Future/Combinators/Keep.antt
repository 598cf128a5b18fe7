-- ===== src/Future/Combinators/Keep.antt =====
-- The end of a combinator: its output promise is given a result and destroyed.
use ufsrvrxlib.Base.Memory.{not_null}
use ufsrvrxlib.Base.{
  ℕ, All, [], ◌≡◌, refl, ap, ◌≢◌, ◌∙◌, ◌-◌, true, false, none, some, List, arith, ◌==◌,
}
use ufsrvrxlib.Future.Interface.{TreiberStack, NodeBase, FutureResult, Host}
use ufsrvrxlib.Future.Heap.{Call, Ptr, null, Future, Promise, State, ok, write}
use ufsrvrxlib.Future.Pending.{Registration, Out, IsPending}
use ufsrvrxlib.Future.Deliver.{IsPlain, deliver_all}
use ufsrvrxlib.Future.Complete.{kept_refs, unregistered}
use ufsrvrxlib.Future.Awaited.{Awaiting, IsLeft, wake_all}
use ufsrvrxlib.Future.Detach.{IsAwaited, IsPending-IsAwaited}
use ufsrvrxlib.Future.Finish.{future_complete-Finished}
use ufsrvrxlib.Future.Fulfil.{marked, IsAwaited-marked, set_result-run}
use ufsrvrxlib.Future.Promises.{promise_destroy, future_release}
use ufsrvrxlib.Future.Combinators.{Program, keep_promise}

module _ {E S B : Type 0} (host : Host E) (stack : TreiberStack S) (base : NodeBase B)
    (call : Call E S B) where
  -- The promise is freed, and one reference of its future goes.
  abbrev parted : State E S B → Ptr → Promise → Future S → State E S B
  parted s pp q g = record s {
    futures = write s.futures q.future (some (record g { refcount = g.refcount - 1 }));
    promises = write (write s.promises pp (some (record q { is_fulfilled = true }))) pp none;
  }

  promise_destroy_fulfilled :
      (s : State E S B) (pp : Ptr) (q : Promise) (g : Future S)
      → pp ≢ null
      → q.future ≢ null
      → s.promises pp ≡ some q
      → q.is_fulfilled ≡ true
      → s.futures q.future ≡ some g
      → (g.refcount == 1) ≡ false
      → promise_destroy host stack base call pp s ≡ ok tt (parted s pp q g)
  unfolding promise_destroy future_release
  promise_destroy_fulfilled s pp q g hp hf e done eg more =
      simp (not_null pp hp, not_null q.future hf, e, done, eg, more)

module _ {E S B : Type 0} (host : Host E) (stack : TreiberStack S) (base : NodeBase B)
    (call : Call E S B) (plain : IsPlain host call) (program : Program E S B) where
  -- What a combinator that has its result leaves behind; `e` is the environment with the waiters woken.
  pub record Kept (s : State E S B) (pp : Ptr) (q : Promise) (f : Future S) (rs : List Registration)
      (ws : List (Awaiting B)) (after : ℕ) (e : E) (result : FutureResult) : Type 0 where
    pub last : State E S B
    pub last_future : Future S
    pub run : keep_promise host stack base call program pp result s ≡ ok tt last
    pub holds : last.futures q.future ≡ some last_future
    pub count : last_future.refcount ≡ after - 1
    pub flags : (last_future.is_completed ≡ true) × (last_future.is_ready ≡ true)
    pub delivered : (last_future.result, last.env) ≡ deliver_all host rs (result, e)
    pub left : All (λ w. IsLeft host stack base w (last.waiting w.at)) ws
    pub freed : last.promises pp ≡ none
    pub other_futures : (a : Ptr) → a ≢ q.future → last.futures a ≡ s.futures a
    pub other_nodes : (a : Ptr) → Out a rs → last.conts a ≡ s.conts a
    pub contexts : last.contexts ≡ s.contexts

  pub keep_promise-Kept :
      (s : State E S B) (pp : Ptr) (q : Promise) (f : Future S) (rs : List Registration)
      (ws : List (Awaiting B)) (after : ℕ) (e : E) (result : FutureResult)
      → pp ≢ null
      → s.promises pp ≡ some q
      → q.is_fulfilled ≡ false
      → IsAwaited host stack base call s q.future f rs ws after
      → wake_all host stack base ws (unregistered host f.cancel_handle s.env) ≡ some e
      → after ≢ 1
      → Kept s pp q f rs ws after e result
  unfolding keep_promise
  keep_promise-Kept s pp q f rs ws after e result hp at fresh awaited woken more =
      let done =
        future_complete-Finished host stack base call plain
          (marked host stack base call plain s pp q) q.future f rs ws after result e
          (IsAwaited-marked host stack base call plain s pp q f rs ws after awaited) woken in
      let set =
        set_result-run host stack base call plain s done.last pp q result hp at fresh done.run in
      let marked_now : done.last.promises pp ≡ some (record q { is_fulfilled = true }) =
        ap (λ h. h pp) done.promises ∙ ground arith in
      let gone =
        promise_destroy_fulfilled host stack base call done.last pp
          (record q { is_fulfilled = true }) done.last_future hp awaited.ne_null marked_now refl
          done.holds (ground (arith, more, done.kept.0)) in
      record {
        last =
            parted host stack base call done.last pp (record q { is_fulfilled = true })
              done.last_future;
        last_future = record done.last_future { refcount = done.last_future.refcount - 1 };
        run = simp (set, gone);
        holds = ground arith;
        count = ap (λ n. n - 1) done.kept.0;
        flags = done.flags;
        delivered = done.delivered;
        left = done.left;
        freed = ground arith;
        other_futures = λ a ne. ground (arith, done.other_futures a ne);
        other_nodes = done.other_nodes;
        contexts = done.contexts;
      }

  -- The same on a future that nobody waits for.
  pub keep_promise_pending :
      (s : State E S B) (pp : Ptr) (q : Promise) (f : Future S) (rs : List Registration)
      (result : FutureResult)
      → pp ≢ null
      → s.promises pp ≡ some q
      → q.is_fulfilled ≡ false
      → IsPending stack base host call s q.future f rs
      → kept_refs f.cancel_handle f.refcount ≢ 1
      → Kept s pp q f rs []
          (kept_refs f.cancel_handle f.refcount)
          (unregistered host f.cancel_handle s.env)
          result
  keep_promise_pending s pp q f rs result hp at fresh pending more =
      keep_promise-Kept s pp q f rs [] (kept_refs f.cancel_handle f.refcount)
        (unregistered host f.cancel_handle s.env) result hp at fresh
        (IsPending-IsAwaited host stack base call s q.future f rs pending) refl more
