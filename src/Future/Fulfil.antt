-- ===== src/Future/Fulfil.antt =====
-- UfsrvPromiseSetResult and UfsrvPromiseDestroy.
use ufsrvrxlib.Base.Memory.{not_null}
use ufsrvrxlib.Base.{
  ℕ, ◌-◌, ◌==◌, All, ◌≡◌, refl, sym, ap, ◌⊎◌, inl, inr, Bool-cases, ◌≢◌, true, false, none, some,
  List, [], arith,
}
use ufsrvrxlib.Future.Interface.{TreiberStack, NodeBase, FutureResult, Host}
use ufsrvrxlib.Future.Heap.{Call, Ptr, null, Future, Promise, State, ok, write}
use ufsrvrxlib.Future.Pending.{Registration, Out}
use ufsrvrxlib.Future.Deliver.{IsPlain, deliver_all}
use ufsrvrxlib.Future.Complete.{unregistered}
use ufsrvrxlib.Future.Awaited.{Awaiting, Away, IsLeft, wake_all}
use ufsrvrxlib.Future.Detach.{IsAwaited, IsAwaited-same}
use ufsrvrxlib.Future.Finish.{future_complete-Finished}
use ufsrvrxlib.Future.Then.{future_complete-again}
use ufsrvrxlib.Future.{epipe, error_result, free_result, future_complete}
use ufsrvrxlib.Future.Promises.{set_result, promise_destroy, future_release}

module _ {E S B : Type 0} (host : Host E) (stack : TreiberStack S) (base : NodeBase B)
    (call : Call E S B) (plain : IsPlain host call) where
  abbrev pub marked : State E S B → Ptr → Promise → State E S B
  marked s pp q = record s {
    promises = write s.promises pp (some (record q { is_fulfilled = true }));
  }

  pub set_result-run :
      (s t : State E S B) (pp : Ptr) (q : Promise) (result : FutureResult)
      → pp ≢ null
      → s.promises pp ≡ some q
      → q.is_fulfilled ≡ false
      → future_complete host stack base call q.future result (marked s pp q) ≡ ok true t
      → set_result host stack base call pp result s ≡ ok tt t
  unfolding set_result
  set_result-run s t pp q result hp e fresh ran = simp (not_null pp hp, e, fresh, ran)

  pub set_result-again :
      (s : State E S B) (pp : Ptr) (q : Promise) (result : FutureResult)
      → pp ≢ null
      → s.promises pp ≡ some q
      → q.is_fulfilled ≡ true
      → (t : State E S B) × (set_result host stack base call pp result s ≡ ok tt t)
        × (t.env ≡ free_result host stack base result s.env)
        × ((a : Ptr) → t.promises a ≡ s.promises a)
        × (t.futures ≡ s.futures)
        × (t.conts ≡ s.conts)
  unfolding set_result
  set_result-again s pp q result hp e done =
      let same : some (record q { is_fulfilled = true }) ≡ some q =
        ap (λ b. some (record q { is_fulfilled = b })) (sym done) in
      (
        record (marked s pp q) { env = free_result host stack base result s.env },
        simp (not_null pp hp, e, done),
        refl,
        λ a. ground (arith, same, e),
        refl,
        refl,
      )

  pub set_result-lost :
      (s : State E S B) (pp : Ptr) (q : Promise) (f : Future S) (result : FutureResult)
      → pp ≢ null
      → s.promises pp ≡ some q
      → q.is_fulfilled ≡ false
      → q.future ≢ null
      → s.futures q.future ≡ some f
      → f.is_completed ≡ true
      → (t : State E S B) × (set_result host stack base call pp result s ≡ ok tt t)
        × (t.env ≡ free_result host stack base result s.env)
        × ((a : Ptr) → t.futures a ≡ s.futures a)
        × (t.conts ≡ s.conts)
        × ((a : Ptr) → a ≢ pp → t.promises a ≡ s.promises a)
  unfolding set_result
  set_result-lost s pp q f result hp e fresh ne held completed =
      let (t, ran, futures, env, conts, promises) =
        future_complete-again host stack base call plain (marked s pp q) q.future f result ne held
          completed in
      (
        record t { env = free_result host stack base result t.env },
        simp (not_null pp hp, e, fresh, ran),
        ap (free_result host stack base result) env,
        futures,
        conts,
        λ a away. ground (arith, promises),
      )

  -- `UfsrvPromiseSetResult` on a promise that is fulfilled, or whose future another completed first as
  -- a cancellation does, frees the value that it is given, and leaves every future, every continuation
  -- and every other promise as it was.
  pub set_result_refused :
      (s : State E S B) (pp : Ptr) (q : Promise) (f : Future S) (result : FutureResult)
      → pp ≢ null
      → s.promises pp ≡ some q
      → q.future ≢ null
      → s.futures q.future ≡ some f
      → (q.is_fulfilled ≡ true) ⊎ (f.is_completed ≡ true)
      → (t : State E S B) × (set_result host stack base call pp result s ≡ ok tt t)
        × (t.env ≡ free_result host stack base result s.env)
        × ((a : Ptr) → t.futures a ≡ s.futures a)
        × (t.conts ≡ s.conts)
        × ((a : Ptr) → a ≢ pp → t.promises a ≡ s.promises a)
  set_result_refused s pp q f result hp e ne held cause = elim (Bool-cases q.is_fulfilled) [
    | inl done ↦
        let (t, run, env, promises, futures, conts) = set_result-again s pp q result hp e done in
        (t, run, env, λ a. ap (λ h. h a) futures, conts, λ a away. promises a)
    | inr fresh ↦
        let completed : f.is_completed ≡ true = grind (arith, cause) in
        set_result-lost s pp q f result hp e fresh ne held completed
  ]

  pub IsAwaited-marked :
      (s : State E S B) (pp : Ptr) (q : Promise) (f : Future S) (rs : List Registration)
      (ws : List (Awaiting B)) (after : ℕ)
      → IsAwaited host stack base call s q.future f rs ws after
      → IsAwaited host stack base call (marked s pp q) q.future f rs ws after
  IsAwaited-marked s pp q f rs ws after w =
      IsAwaited-same host stack base call s (marked s pp q) q.future f rs ws after refl refl refl w

  -- What destroying an unfulfilled promise leaves behind; `e` is the environment with the waiters woken.
  pub record Broken (s : State E S B) (pp : Ptr) (q : Promise) (f : Future S)
      (rs : List Registration) (ws : List (Awaiting B)) (after : ℕ) (e : E) : Type 0 where
    pub last : State E S B
    pub last_future : Future S
    pub run : promise_destroy host stack base call pp s ≡ ok tt last
    pub holds : last.futures q.future ≡ some last_future
    pub count : last_future.refcount ≡ after - 1
    pub flags : (last_future.is_completed ≡ true) × (last_future.is_ready ≡ true)
    pub delivered : (last_future.result, last.env) ≡ deliver_all host rs (error_result epipe, e)
    pub freed : last.promises pp ≡ none
    pub emptied :
        (stack.items last_future.continuations ≡ []) × (stack.items last_future.waiters ≡ [])
    pub token : last_future.cancel_token ≡ f.cancel_token
    pub left : All (λ w. IsLeft host stack base w (last.waiting w.at)) ws
    pub nodes : All (λ r. last.conts r.at ≡ none) rs
    pub other_futures : (a : Ptr) → a ≢ q.future → last.futures a ≡ s.futures a
    pub other_promises : (a : Ptr) → a ≢ pp → last.promises a ≡ s.promises a
    pub other_nodes : (a : Ptr) → Out a rs → last.conts a ≡ s.conts a
    pub other_waiters : (a : Ptr) → Away a ws → last.waiting a ≡ s.waiting a
    pub contexts : last.contexts ≡ s.contexts

  abbrev without : State E S B → Ptr → Ptr → Future S → State E S B
  without s pp p g = record s {
    futures = write s.futures p (some (record g { refcount = g.refcount - 1 }));
    promises = write s.promises pp none;
  }

  promise_destroy-run :
      (s t : State E S B) (pp : Ptr) (q : Promise) (g : Future S)
      → pp ≢ null
      → q.future ≢ null
      → s.promises pp ≡ some q
      → q.is_fulfilled ≡ false
      → future_complete host stack base call q.future (error_result epipe) (marked s pp q)
        ≡ ok true t
      → t.futures q.future ≡ some g
      → (g.refcount == 1) ≡ false
      → promise_destroy host stack base call pp s ≡ ok tt (without t pp q.future g)
  unfolding promise_destroy future_release
  promise_destroy-run s t pp q g hp hf e fresh ran eg more =
      simp (not_null pp hp, not_null q.future hf, e, fresh, ran, eg, more)

  -- `UfsrvPromiseDestroy` on an unfulfilled promise whose future nobody has completed, while another
  -- reference of the future is left, completes the future with EPIPE: it wakes each waiter of any that
  -- wait, and calls each continuation of any that are registered, all of them the program's own and
  -- acting on the rest of the program only. It then drops one reference of the future and frees the
  -- promise. Each scheduler takes the coroutine that it is handed.
  pub promise_destroy-Broken :
      (s : State E S B) (pp : Ptr) (q : Promise) (f : Future S) (rs : List Registration)
      (ws : List (Awaiting B)) (after : ℕ) (e : E)
      → pp ≢ null
      → s.promises pp ≡ some q
      → q.is_fulfilled ≡ false
      → IsAwaited host stack base call s q.future f rs ws after
      → wake_all host stack base ws (unregistered host f.cancel_handle s.env) ≡ some e
      → after ≢ 1
      → Broken s pp q f rs ws after e
  promise_destroy-Broken s pp q f rs ws after e hp at fresh awaited woken more =
      let done =
        future_complete-Finished host stack base call plain (marked s pp q) q.future f rs ws after
          (error_result epipe) e (IsAwaited-marked s pp q f rs ws after awaited) woken in
      let shared : (done.last_future.refcount == 1) ≡ false = ground (arith, done.kept.0) in
      record {
        last = without done.last pp q.future done.last_future;
        last_future = record done.last_future { refcount = done.last_future.refcount - 1 };
        run =
            promise_destroy-run s done.last pp q done.last_future hp awaited.ne_null at fresh
              done.run done.holds shared;
        holds = ground arith;
        count = ap (λ n. n - 1) done.kept.0;
        flags = done.flags;
        delivered = done.delivered;
        freed = ground arith;
        emptied = done.emptied;
        token = done.kept.1.0;
        left = done.left;
        nodes = done.freed;
        other_futures = λ a ne. ground (arith, done.other_futures a ne);
        other_promises = λ a ne. ground (arith, ap (λ h. h a) done.promises);
        other_nodes = done.other_nodes;
        other_waiters = done.other_waiters;
        contexts = done.contexts;
      }
