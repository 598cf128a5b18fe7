-- ===== src/Future/Combinators/Handover.antt =====
-- The completion of a future that UfsrvFutureDoOnSuccess was called on, and its release.
use ufsrvrxlib.Base.{ℕ, ◌≡◌, ap, ◌≢◌, ◌∙◌, true, false, Option, none, some, List, arith}
use ufsrvrxlib.Future.Interface.{TreiberStack, NodeBase, FutureResult, Host}
use ufsrvrxlib.Future.Heap.{
  do_on_success_fn, Ptr, DoOnSuccessContext, a_do_on_success, Future, Promise, Continuation, State,
  ok, write,
}
use ufsrvrxlib.Future.Pending.{Registration, Out}
use ufsrvrxlib.Future.Deliver.{deliver_all}
use ufsrvrxlib.Future.Complete.{kept_refs, unregistered, settled}
use ufsrvrxlib.Future.Release.{token_dropped, future_release-last}
use ufsrvrxlib.Future.{no_result, future_complete}
use ufsrvrxlib.Future.Promises.{future_release}
use ufsrvrxlib.Future.Combinators.{Program, do_on_success_continuation}
use ufsrvrxlib.Future.Combinators.Move.{
  IsAction, acted, IsMovable, left_behind, moved_to, do_on_success_continuation-Moved,
}
use ufsrvrxlib.Future.Combinators.Calls.{run_at}
use ufsrvrxlib.Future.Combinators.Source.{
  outer, inner, outer-IsPlain, inner-IsPlain, IsSource, IsOutput, at_start, at_start-IsPending,
  complete_writing,
}

module _ {E S B : Type 0} (host : Host E) (stack : TreiberStack S) (base : NodeBase B)
    (program : Program E S B) (acting : (fn : ℕ) (value : Option ℕ) (user : ℕ) → E → E)
    (acts : IsAction program acting) (fuel : ℕ) where
  abbrev acted_on : DoOnSuccessContext → Future S → FutureResult → E → E
  acted_on d f r env =
      acted host stack base (inner host stack base program fuel)
        (inner-IsPlain host stack base program fuel) program acting acts d r
        (unregistered host f.cancel_handle env)

  -- The input that has given its result away.
  abbrev emptied : Future S → FutureResult → Future S
  emptied f r =
      record (settled host stack base (outer host stack base program fuel)
        (outer-IsPlain host stack base program fuel) f r) { is_consumed = true; result = no_result }

  pub record HandedOver (s : State E S B) (p a c : Ptr) (f : Future S) (d : DoOnSuccessContext)
      (q : Promise) (g : Future S) (rs : List Registration) (r : FutureResult) : Type 0 where
    pub between : State E S B
    pub last : State E S B
    pub output : Future S
    pub completes :
        future_complete host stack base (outer host stack base program fuel) p r s ≡ ok true between
    pub releases : future_release host stack base p between ≡ ok tt last
    pub holds : (between.futures q.future ≡ some output) × (last.futures q.future ≡ some output)
    pub flags : (output.is_completed ≡ true) × (output.is_ready ≡ true)
    pub delivered :
        (output.result, between.env)
        ≡ deliver_all host rs (r, unregistered host g.cancel_handle (acted_on d f r s.env))
    pub input : last.futures p ≡ none
    pub unfreed : last.env ≡ token_dropped host stack base f.cancel_token between.env
    pub freed :
        (between.conts a ≡ none)
        × (between.promises d.out_promise ≡ none)
        × (between.contexts c ≡ none)

  moved_start :
      (s : State E S B) (p a c : Ptr) (f : Future S) (n : Continuation B) (r : FutureResult)
      (pp : Ptr) (q : Promise) (g : Future S) (rs : List Registration)
      → IsSource host stack base program fuel do_on_success_fn s p a c f n
      → IsOutput host stack base program fuel s pp q g rs
      → q.future ≢ p
      → Out a rs
      → IsMovable host stack base
          (inner host stack base program fuel)
          (inner-IsPlain host stack base program fuel)
          program
          (at_start host stack base program fuel s p a f n r)
          p
          pp
          q
          g
          (settled host stack base
            (outer host stack base program fuel)
            (outer-IsPlain host stack base program fuel)
            f
            r)
          rs
  moved_start s p a c f n r pp q g rs source output ne out = record {
    input = (source.ne_null.0, ground arith, ne);
    ne_null = output.ne_null;
    promise = output.holds;
    unfulfilled = output.fresh;
    pending =
        at_start-IsPending host stack base program fuel s p a c f n r q.future g rs ne out
          output.pending;
    shared = output.shared;
  }

  outer-do :
      (s t : State E S B) (c : Ptr) (r : FutureResult) (written : Option FutureResult)
      → do_on_success_continuation host stack base
          (inner host stack base program fuel)
          program
          r
          c
          s
        ≡ ok written t
      → (outer host stack base program fuel).run do_on_success_fn c r s ≡ ok written t
  unfolding run_at
  outer-do s t c r written ran = ran

  -- With an action that acts on the rest of the program only, and two levels of calls or more: a future that
  -- nobody has completed, without a waiter, and where the only continuation is that of
  -- `UfsrvFutureDoOnSuccess`, with no other operator having taken its result, is completed, and then
  -- released by the holder of its last reference. Meanwhile nobody has completed the output future, which
  -- has no waiter, another reference than its promise's, and only continuations of the program's own that
  -- act on the rest of the program; its promise is unfulfilled. A handle that either has drops its reference
  -- at once when it is unregistered. Then the action has been called on the value, unless there
  -- is an error, and the output is completed and ready with the very result, as its continuations, called
  -- on that exactly once, leave it. The release frees the input and not the value, which is the output's
  -- now; the node, the promise and the context are freed.
  pub future_complete-HandedOver :
      (s : State E S B) (a c : Ptr) (f : Future S) (n : Continuation B) (d : DoOnSuccessContext)
      (q : Promise) (g : Future S) (rs : List Registration) (r : FutureResult)
      → IsSource host stack base program fuel do_on_success_fn s d.in_future a c f n
      → s.contexts c ≡ some (a_do_on_success d)
      → f.is_consumed ≡ false
      → kept_refs f.cancel_handle f.refcount ≡ 1
      → IsOutput host stack base program fuel s d.out_promise q g rs
      → q.future ≢ d.in_future
      → Out a rs
      → HandedOver s d.in_future a c f d q g rs r
  future_complete-HandedOver s a c f n d q g rs r source ec untaken one output ne out =
      let moved =
        do_on_success_continuation-Moved host stack base (inner host stack base program fuel)
          (inner-IsPlain host stack base program fuel) program acting acts
          (at_start host stack base program fuel s d.in_future a f n r) c d q g
          (settled host stack base (outer host stack base program fuel)
            (outer-IsPlain host stack base program fuel) f r)
          rs r source.ne_null.2 ec
          (moved_start s d.in_future a c f n r d.out_promise q g rs source output ne out) in
      let ran =
        outer-do (at_start host stack base program fuel s d.in_future a f n r) moved.last c r
          (some no_result) (moved.run ∙ ap (λ taken. ok (left_behind taken) moved.last) untaken) in
      let done =
        complete_writing host stack base program fuel do_on_success_fn s moved.last d.in_future a c
          f
          (record (settled host stack base (outer host stack base program fuel)
            (outer-IsPlain host stack base program fuel) f r) { is_consumed = true })
          n r no_result source ran moved.input (moved.other_nodes a out) in
      let between : State E S B = record (moved.last) {
        futures = write moved.last.futures d.in_future (some (emptied f r));
        conts = write moved.last.conts a none;
      } in
      let (t, released, (gone, env), others, conts, promises, contexts) =
        future_release-last host stack base between d.in_future (emptied f r) source.ne_null.0
          (ground arith) (stack.steal-closes f.continuations).0 (stack.steal-closes f.waiters).0
          one in
      record {
        between = between;
        last = t;
        output = moved.output;
        completes = done;
        releases = released;
        holds = (ground (arith, moved.holds), others q.future ne ∙ ground (arith, moved.holds));
        flags = moved.flags;
        delivered =
            moved.delivered
            ∙ ap
                (λ taken.
                  deliver_all host rs
                    (moved_to taken r, unregistered host g.cancel_handle (acted_on d f r s.env)))
                untaken;
        input = gone;
        unfreed = env;
        freed = (ground arith, moved.freed.0, moved.freed.1);
      }
