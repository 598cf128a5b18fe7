-- ===== src/Future/Combinators/Count.antt =====
-- One call of sAllContinuation, by the error of the input, the flag of the context and what is left to
-- count.
use ufsrvrxlib.Base.Memory.{not_null, same_ptr}
use ufsrvrxlib.Base.{
  ◌≡◌, refl, ◌≢◌, ◌∙◌, ◌-◌, Bool, true, false, Option, none, some, List, [], ◌∷◌, length, arith,
  ◌==◌,
}
use ufsrvrxlib.Future.Interface.{TreiberStack, NodeBase, FutureResult, Host}
use ufsrvrxlib.Future.Heap.{
  Call, Ptr, null, Cmd, pure, ◌>>=◌, AllContext, Context, an_all, State, ok, write,
}
use ufsrvrxlib.Future.{no_result, error_result}
use ufsrvrxlib.Future.Promises.{set_error}
use ufsrvrxlib.Future.Combinators.{Program, is_success, fail_promise, keep_promise}
use ufsrvrxlib.Future.Combinators.Gather.{fail_all, all_continuation}

module _ {E S B : Type 0} (host : Host E) (stack : TreiberStack S) (base : NodeBase B)
    (call : Call E S B) (program : Program E S B) where
  -- The inputs complete, one after the other.
  unfoldable pub report_all : (context : Ptr) → List FutureResult → Cmd E S B (Unit {0})
  report_all c [] = pure tt
  report_all c (r ∷ rs) = do _ ← all_continuation host stack base call program r c; report_all c rs

  -- The context once a test for failure has passed, where the output was failed before.
  abbrev pub tested : State E S B → Ptr → AllContext → Bool → Ptr → Option Context
  tested s c m true = s.contexts
  tested s c m false = write s.contexts c (some (an_all (record m { failed = true })))

  failed_more :
      (s : State E S B) (c : Ptr) (m : AllContext) (r : FutureResult) (fine : Bool)
      → c ≢ null
      → s.contexts c ≡ some (an_all m)
      → m.failed ≡ true
      → is_success r.error ≡ fine
      → (m.remaining == 1) ≡ false
      → all_continuation host stack base call program r c s
        ≡ ok none (record s {
          contexts =
              write
                (tested s c m fine)
                c
                (some (an_all (record m { remaining = m.remaining - 1; failed = true })));
        })
  unfolding all_continuation fail_all
  failed_more s c m r true hc e failed fine more = simp (not_null c hc, e, failed, fine, more)
  failed_more s c m r false hc e failed fine more =
      simp (not_null c hc, e, failed, fine, more, same_ptr c)

  failed_last :
      (s : State E S B) (c : Ptr) (m : AllContext) (r : FutureResult) (fine : Bool)
      → c ≢ null
      → s.contexts c ≡ some (an_all m)
      → m.failed ≡ true
      → is_success r.error ≡ fine
      → (m.remaining == 1) ≡ true
      → all_continuation host stack base call program r c s
        ≡ ok none (record s {
          contexts =
              write
                (write
                  (tested s c m fine)
                  c
                  (some (an_all (record m { remaining = m.remaining - 1; failed = true }))))
                c
                none;
        })
  unfolding all_continuation fail_all
  failed_last s c m r true hc e failed fine last =
      simp (not_null c hc, e, failed, fine, last, same_ptr c)
  failed_last s c m r false hc e failed fine last =
      simp (not_null c hc, e, failed, fine, last, same_ptr c)

  -- Only the context at `c` has changed.
  pub record Same (s t : State E S B) (c : Ptr) : Type 0 where
    pub futures : t.futures ≡ s.futures
    pub promises : t.promises ≡ s.promises
    pub conts : t.conts ≡ s.conts
    pub waiting : t.waiting ≡ s.waiting
    pub env : t.env ≡ s.env
    pub contexts : (a : Ptr) → a ≢ c → t.contexts a ≡ s.contexts a

  tested-other :
      (s : State E S B) (c a : Ptr) (m : AllContext) (fine : Bool)
      → a ≢ c
      → tested s c m fine a ≡ s.contexts a
  tested-other s c a m true ne = refl
  tested-other s c a m false ne = ground arith

  -- Behind a failure, the rest of the inputs are counted, and the last frees the context.
  pub report_all-spent :
      (s : State E S B) (c : Ptr) (m : AllContext) (r : FutureResult) (rs : List FutureResult)
      → c ≢ null
      → s.contexts c ≡ some (an_all m)
      → m.failed ≡ true
      → m.remaining ≡ length (r ∷ rs)
      → (t : State E S B) × (report_all c (r ∷ rs) s ≡ ok tt t) × Same s t c × (t.contexts c ≡ none)
  unfolding report_all
  report_all-spent s c m r [] hc e failed count =
      let last =
        failed_last s c m r (is_success r.error) hc e failed refl (ground (arith, count)) in
      (
        record s {
          contexts =
              write
                (write (tested s c m (is_success r.error)) c
                  (some (an_all (record m { remaining = m.remaining - 1; failed = true }))))
                c none;
        },
        simp last,
        record {
          futures = refl;
          promises = refl;
          conts = refl;
          waiting = refl;
          env = refl;
          contexts = λ a ne. ground (arith, tested-other s c a m (is_success r.error) ne);
        },
        ground arith,
      )
  report_all-spent s c m r (r' ∷ rs) hc e failed count =
      let next = record s {
        contexts =
            write (tested s c m (is_success r.error)) c
              (some (an_all (record m { remaining = m.remaining - 1; failed = true })));
      } in
      let more =
        failed_more s c m r (is_success r.error) hc e failed refl (ground (arith, count)) in
      let (t, run, same, freed) =
        report_all-spent next c (record m { remaining = m.remaining - 1; failed = true }) r' rs hc
          (ground arith) refl (ground (arith, count)) in
      (
        t,
        simp (more, run),
        record {
          futures = same.futures;
          promises = same.promises;
          conts = same.conts;
          waiting = same.waiting;
          env = same.env;
          contexts = λ a ne.
              same.contexts a ne ∙ ground (arith, tested-other s c a m (is_success r.error) ne);
        },
        freed,
      )

  abbrev pub counted : State E S B → Ptr → AllContext → State E S B
  counted s c m = record s {
    contexts = write s.contexts c (some (an_all (record m { remaining = m.remaining - 1 })));
  }

  pub fine_more :
      (s : State E S B) (c : Ptr) (m : AllContext) (r : FutureResult)
      → c ≢ null
      → s.contexts c ≡ some (an_all m)
      → is_success r.error ≡ true
      → (m.remaining == 1) ≡ false
      → all_continuation host stack base call program r c s ≡ ok none (counted s c m)
  unfolding all_continuation
  fine_more s c m r hc e fine more = simp (not_null c hc, e, fine, more)

  pub fine_last :
      (s t : State E S B) (c : Ptr) (m : AllContext) (r : FutureResult)
      → c ≢ null
      → s.contexts c ≡ some (an_all m)
      → m.failed ≡ false
      → is_success r.error ≡ true
      → (m.remaining == 1) ≡ true
      → keep_promise host stack base call program m.out_promise no_result (counted s c m) ≡ ok tt t
      → all_continuation host stack base call program r c s
        ≡ ok none (record t { contexts = write t.contexts c none })
  unfolding all_continuation
  fine_last s t c m r hc e unfailed fine last kept =
      let kept_now = simp unfailed at kept in
      simp (not_null c hc, e, unfailed, fine, last, same_ptr c, kept_now)

  abbrev pub failing : State E S B → Ptr → AllContext → State E S B
  failing s c m = record s {
    contexts = write s.contexts c (some (an_all (record m { failed = true })));
  }

  -- The first failure: the output has been failed, the context is marked, and the input is counted.
  pub bad_more :
      (s t : State E S B) (c : Ptr) (m : AllContext) (r : FutureResult)
      → c ≢ null
      → s.contexts c ≡ some (an_all m)
      → m.failed ≡ false
      → is_success r.error ≡ false
      → (m.remaining == 1) ≡ false
      → keep_promise host stack base call program m.out_promise
          (error_result r.error)
          (failing s c m)
        ≡ ok tt t
      → t.contexts c ≡ some (an_all (record m { failed = true }))
      → all_continuation host stack base call program r c s
        ≡ ok none (counted t c (record m { failed = true }))
  unfolding all_continuation fail_all fail_promise keep_promise set_error
  bad_more s t c m r hc e unfailed bad more kept et =
      simp (not_null c hc, e, unfailed, bad, more, kept, et)

  pub bad_last :
      (s t : State E S B) (c : Ptr) (m : AllContext) (r : FutureResult)
      → c ≢ null
      → s.contexts c ≡ some (an_all m)
      → m.failed ≡ false
      → is_success r.error ≡ false
      → (m.remaining == 1) ≡ true
      → keep_promise host stack base call program m.out_promise
          (error_result r.error)
          (failing s c m)
        ≡ ok tt t
      → t.contexts c ≡ some (an_all (record m { failed = true }))
      → all_continuation host stack base call program r c s
        ≡ ok none (record t {
          contexts = write (counted t c (record m { failed = true })).contexts c none;
        })
  unfolding all_continuation fail_all fail_promise keep_promise set_error
  bad_last s t c m r hc e unfailed bad last kept et =
      simp (not_null c hc, e, unfailed, bad, last, same_ptr c, kept, et)
