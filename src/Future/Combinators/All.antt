-- ===== src/Future/Combinators/All.antt =====
-- sAllContinuation, called for the inputs of UfsrvFutureAll in the order in which they complete.
use ufsrvrxlib.Base.{
  ℕ, All, ◌≡◌, refl, ap, ◌≢◌, ◌∙◌, ◌-◌, Bool-cases, inl, inr, ◌⊎◌, true, false, none, some, List,
  [], ◌∷◌, length, arith, ◌==◌, if◌then◌else◌,
}
use ufsrvrxlib.Future.Interface.{TreiberStack, NodeBase, FutureResult, Host}
use ufsrvrxlib.Future.Heap.{Call, Ptr, null, Future, Promise, AllContext, an_all, State, ok, write}
use ufsrvrxlib.Future.Pending.{Registration}
use ufsrvrxlib.Future.Deliver.{IsPlain, deliver_all}
use ufsrvrxlib.Future.Complete.{unregistered}
use ufsrvrxlib.Future.Awaited.{Awaiting, IsLeft, wake_all}
use ufsrvrxlib.Future.Detach.{IsAwaited, IsAwaited-same}
use ufsrvrxlib.Future.{no_result, error_result}
use ufsrvrxlib.Future.Combinators.{Program, is_success}
use ufsrvrxlib.Future.Combinators.Count.{
  report_all, report_all-spent, counted, failing, fine_more, fine_last, bad_more, bad_last,
}
use ufsrvrxlib.Future.Combinators.Keep.{Kept, keep_promise-Kept}

-- What the output gets: the error of the first input that fails, or no value where all succeed.
abbrev pub all_result : List FutureResult → FutureResult
all_result [] = no_result
all_result (r ∷ rs) = if is_success r.error then all_result rs else error_result r.error

module _ {E S B : Type 0} (host : Host E) (stack : TreiberStack S) (base : NodeBase B)
    (call : Call E S B) (plain : IsPlain host call) (program : Program E S B) where
  -- An output that has not been given anything, and the context that the inputs share.
  pub record IsGathering (s : State E S B) (c : Ptr) (m : AllContext) (q : Promise) (f : Future S)
      (regs : List Registration) (ws : List (Awaiting B)) (after : ℕ) (e : E) : Type 0 where
    pub ne_null : (c ≢ null) × (m.out_promise ≢ null)
    pub context : s.contexts c ≡ some (an_all m)
    pub unfailed : m.failed ≡ false
    pub promise : s.promises m.out_promise ≡ some q
    pub unfulfilled : q.is_fulfilled ≡ false
    pub awaited : IsAwaited host stack base call s q.future f regs ws after
    pub woken : wake_all host stack base ws (unregistered host f.cancel_handle s.env) ≡ some e
    pub shared : after ≢ 1

  -- What the inputs leave behind when the last has reported.
  pub record Gathered (s : State E S B) (c : Ptr) (m : AllContext) (q : Promise) (f : Future S)
      (regs : List Registration) (ws : List (Awaiting B)) (after : ℕ) (e : E)
      (inputs : List FutureResult) : Type 0 where
    pub last : State E S B
    pub output : Future S
    pub run : report_all host stack base call program c inputs s ≡ ok tt last
    pub holds : last.futures q.future ≡ some output
    pub flags : (output.is_completed ≡ true) × (output.is_ready ≡ true)
    pub count : output.refcount ≡ after - 1
    pub delivered : (output.result, last.env) ≡ deliver_all host regs (all_result inputs, e)
    pub left : All (λ w. IsLeft host stack base w (last.waiting w.at)) ws
    pub freed : (last.promises m.out_promise ≡ none) × (last.contexts c ≡ none)
    pub other_futures : (a : Ptr) → a ≢ q.future → last.futures a ≡ s.futures a

  IsGathering-counted :
      (s : State E S B) (c : Ptr) (m : AllContext) (q : Promise) (f : Future S)
      (regs : List Registration) (ws : List (Awaiting B)) (after : ℕ) (e : E)
      → IsGathering s c m q f regs ws after e
      → IsGathering
          (counted host stack base call program s c m)
          c
          (record m { remaining = m.remaining - 1 })
          q
          f
          regs
          ws
          after
          e
  IsGathering-counted s c m q f regs ws after e v = record {
    ne_null = v.ne_null;
    context = ground arith;
    unfailed = v.unfailed;
    promise = v.promise;
    unfulfilled = v.unfulfilled;
    awaited =
        IsAwaited-same host stack base call s (counted host stack base call program s c m) q.future
          f regs ws after refl refl refl v.awaited;
    woken = v.woken;
    shared = v.shared;
  }

  -- The output in a state where only the context differs.
  IsGathering-Kept :
      (s t : State E S B) (c : Ptr) (m : AllContext) (q : Promise) (f : Future S)
      (regs : List Registration) (ws : List (Awaiting B)) (after : ℕ) (e : E) (r : FutureResult)
      → IsGathering s c m q f regs ws after e
      → t.futures ≡ s.futures
      → t.promises ≡ s.promises
      → t.conts ≡ s.conts
      → t.waiting ≡ s.waiting
      → t.env ≡ s.env
      → Kept host stack base call plain program t m.out_promise q f regs ws after e r
  IsGathering-Kept s t c m q f regs ws after e r v futures promises conts waiting env =
      keep_promise-Kept host stack base call plain program t m.out_promise q f regs ws after e r
        v.ne_null.1 (ap (λ h. h m.out_promise) promises ∙ v.promise) v.unfulfilled
        (IsAwaited-same host stack base call s t q.future f regs ws after
          (ap (λ h. h q.future) futures) conts waiting v.awaited)
        (rw env v.woken) v.shared

  report_all-last :
      (s : State E S B) (c : Ptr) (m : AllContext) (q : Promise) (f : Future S)
      (regs : List Registration) (ws : List (Awaiting B)) (after : ℕ) (e : E) (r : FutureResult)
      → IsGathering s c m q f regs ws after e
      → (m.remaining == 1) ≡ true
      → (is_success r.error ≡ true) ⊎ (is_success r.error ≡ false)
      → Gathered s c m q f regs ws after e (r ∷ [])
  unfolding report_all
  report_all-last s c m q f regs ws after e r v one (inl fine) =
      let kept =
        IsGathering-Kept s (counted host stack base call program s c m) c m q f regs ws after e
          no_result v refl refl refl refl refl in
      let ran =
        fine_last host stack base call program s kept.last c m r v.ne_null.0 v.context v.unfailed
          fine one kept.run in
      record {
        last = record (kept.last) { contexts = write kept.last.contexts c none };
        output = kept.last_future;
        run = simp ran;
        holds = kept.holds;
        flags = kept.flags;
        count = kept.count;
        left = kept.left;
        delivered = kept.delivered ∙ simp fine;
        freed = (kept.freed, ground arith);
        other_futures = kept.other_futures;
      }
  report_all-last s c m q f regs ws after e r v one (inr bad) =
      let kept =
        IsGathering-Kept s (failing host stack base call program s c m) c m q f regs ws after e
          (error_result r.error) v refl refl refl refl refl in
      let ran =
        bad_last host stack base call program s kept.last c m r v.ne_null.0 v.context v.unfailed bad
          one kept.run (ap (λ h. h c) kept.contexts ∙ ground arith) in
      record {
        last = record (kept.last) {
          contexts =
              write
                (counted host stack base call program kept.last c
                  (record m { failed = true })).contexts
                c none;
        };
        output = kept.last_future;
        run = simp ran;
        holds = kept.holds;
        flags = kept.flags;
        count = kept.count;
        left = kept.left;
        delivered = kept.delivered ∙ simp bad;
        freed = (kept.freed, ground arith);
        other_futures = kept.other_futures;
      }

  report_all-more :
      (s : State E S B) (c : Ptr) (m : AllContext) (q : Promise) (f : Future S)
      (regs : List Registration) (ws : List (Awaiting B)) (after : ℕ) (e : E) (r r' : FutureResult)
      (rs : List FutureResult)
      → IsGathering s c m q f regs ws after e
      → (m.remaining == 1) ≡ false
      → m.remaining ≡ length (r ∷ r' ∷ rs)
      → (is_success r.error ≡ true) ⊎ (is_success r.error ≡ false)
      → (IsGathering
            (counted host stack base call program s c m)
            c
            (record m { remaining = m.remaining - 1 })
            q
            f
            regs
            ws
            after
            e
          → Gathered
              (counted host stack base call program s c m)
              c
              (record m { remaining = m.remaining - 1 })
              q
              f
              regs
              ws
              after
              e
              (r' ∷ rs))
      → Gathered s c m q f regs ws after e (r ∷ r' ∷ rs)
  unfolding report_all
  report_all-more s c m q f regs ws after e r r' rs v more count (inl fine) rest =
      let left = rest (IsGathering-counted s c m q f regs ws after e v) in
      let ran = fine_more host stack base call program s c m r v.ne_null.0 v.context fine more in
      record {
        last = left.last;
        output = left.output;
        run = simp (ran, left.run);
        holds = left.holds;
        flags = left.flags;
        count = left.count;
        left = left.left;
        delivered = left.delivered ∙ simp fine;
        freed = left.freed;
        other_futures = left.other_futures;
      }
  report_all-more s c m q f regs ws after e r r' rs v more count (inr bad) rest =
      let kept =
        IsGathering-Kept s (failing host stack base call program s c m) c m q f regs ws after e
          (error_result r.error) v refl refl refl refl refl in
      let ran =
        bad_more host stack base call program s kept.last c m r v.ne_null.0 v.context v.unfailed bad
          more kept.run (ap (λ h. h c) kept.contexts ∙ ground arith) in
      let (t, spent, same, freed) =
        report_all-spent host stack base call program
          (counted host stack base call program kept.last c (record m { failed = true })) c
          (record m { remaining = m.remaining - 1; failed = true }) r' rs v.ne_null.0 (ground arith)
          refl (ground (arith, count)) in
      record {
        last = t;
        output = kept.last_future;
        run = simp (ran, spent);
        holds = ap (λ h. h q.future) same.futures ∙ kept.holds;
        flags = kept.flags;
        count = kept.count;
        left = rw (same.waiting) kept.left;
        delivered = ap (λ env. (kept.last_future.result, env)) same.env ∙ kept.delivered ∙ simp bad;
        freed = (ap (λ h. h m.out_promise) same.promises ∙ kept.freed, freed);
        other_futures = λ a ne. ap (λ h. h a) same.futures ∙ kept.other_futures a ne;
      }

  -- The inputs of `UfsrvFutureAll` report, as many as its context counts, where none has failed before: the
  -- promise of the output is unfulfilled and another reference of the output is left, nobody has completed
  -- it, and the continuations that are registered on it are the program's own and act on the rest of the
  -- program only. Then the output is completed and ready with the error of the first input that fails,
  -- or with no value where none does. At the first failure, or behind the last input, each waiter of any that
  -- wait for it is woken, and then the continuations are called on that exactly once. The promise and,
  -- behind the last input, the context are freed, and no other future is touched. Each scheduler takes the
  -- coroutine that it is handed.
  pub report_all-Gathered :
      (s : State E S B) (c : Ptr) (m : AllContext) (q : Promise) (f : Future S)
      (regs : List Registration) (ws : List (Awaiting B)) (after : ℕ) (e : E) (r : FutureResult)
      (rs : List FutureResult)
      → IsGathering s c m q f regs ws after e
      → m.remaining ≡ length (r ∷ rs)
      → Gathered s c m q f regs ws after e (r ∷ rs)
  report_all-Gathered s c m q f regs ws after e r [] v count =
      report_all-last s c m q f regs ws after e r v (ground (arith, count))
        (Bool-cases (is_success r.error))
  report_all-Gathered s c m q f regs ws after e r (r' ∷ rs) v count =
      report_all-more s c m q f regs ws after e r r' rs v (ground (arith, count)) count
        (Bool-cases (is_success r.error))
        (λ w.
          report_all-Gathered (counted host stack base call program s c m) c
            (record m { remaining = m.remaining - 1 }) q f regs ws after e r' rs w
            (ground (arith, count)))
