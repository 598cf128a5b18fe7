-- ===== src/Future/Combinators/Derive.antt =====
-- UfsrvFutureMap on a future that nobody has completed, and the completion of that future.
use ufsrvrxlib.Base.Memory.{not_null, other_ptr, same_ptr}
use ufsrvrxlib.Base.{
  ℕ, suc, ◌≡◌, refl, sym, ap, ◌≢◌, ◌∙◌, true, false, Option, none, some, [], ◌∷◌, arith,
}
use ufsrvrxlib.Future.Interface.{TreiberStack, NodeBase, FutureResult, Host}
use ufsrvrxlib.Future.Heap.{
  Call, Fn, map_fn, Ptr, null, Cmd, MapContext, Context, a_map, Future, Promise, Continuation,
  State, ok, write,
}
use ufsrvrxlib.Future.Pending.{IsPending}
use ufsrvrxlib.Future.{future_complete, no_result, then_on, node_release}
use ufsrvrxlib.Future.Promises.{promise_create}
use ufsrvrxlib.Future.Combinators.Map.{Mapping, IsMapping, mapped}
use ufsrvrxlib.Future.Combinators.Calls.{call_at}
use ufsrvrxlib.Future.Combinators.Pass.{future_complete-Passed}
use ufsrvrxlib.Future.Combinators.Source.{IsSource, IsOutput}
use ufsrvrxlib.Future.Combinators.{Program, Fresh, inherit_token, derive, future_map}

module _ {E S B : Type 0} (host : Host E) (stack : TreiberStack S) (base : NodeBase B)
    (call : Call E S B) (program : Program E S B) where
  -- Every allocation of a combinator succeeds, and what it gives is not in use.
  pub record IsGranted (s : State E S B) (fresh : Fresh S) (p : Ptr) : Type 0 where
    pub future : (fresh.future ≢ null) × (p ≢ fresh.future)
    pub promise : fresh.promise ≢ null
    pub context : fresh.context ≢ null
    pub node : fresh.node ≢ null
    pub stacks : (fresh.continuations ≡ some stack.create) × (fresh.waiters ≡ some stack.create)

  abbrev pub new_future : Future S
  new_future = record {
    is_completed = false;
    is_consumed = false;
    is_ready = false;
    result = no_result;
    continuations = stack.create;
    waiters = stack.create;
    refcount = 2;
    cancel_token = none;
    cancel_handle = none;
  }

  abbrev pub new_promise : Ptr → Promise
  new_promise out = record { future = out; is_fulfilled = false }

  abbrev pub new_node : Fn → (user : ℕ) → Continuation B
  new_node fn user = record { base = (base.release base.init).1; fn = fn; user = user }

  -- The state behind a combinator that has registered `fn`.
  abbrev pub derived : State E S B → Fresh S → Ptr → Future S → Fn → Context → S → State E S B
  derived s fresh p f fn context r = record s {
    futures =
        write (write s.futures fresh.future (some new_future)) p
          (some (record f { continuations = r }));
    promises = write s.promises fresh.promise (some (new_promise fresh.future));
    contexts = write s.contexts fresh.context (some context);
    conts =
        write
          (write s.conts fresh.node
            (some (record { base = base.init; fn = fn; user = fresh.context })))
          fresh.node (some (new_node fn fresh.context));
  }

  derive-run :
      (s : State E S B) (fresh : Fresh S) (p : Ptr) (f : Future S) (fn : Fn)
      (context : Ptr → Cmd E S B Context) (c : Context) (r : S)
      → IsGranted s fresh p
      → ((t : State E S B) → context fresh.promise t ≡ ok c t)
      → p ≢ null
      → s.futures p ≡ some f
      → f.is_ready ≡ false
      → f.cancel_token ≡ none
      → stack.push f.continuations fresh.node ≡ some r
      → derive host stack base call program fresh p fn context s
        ≡ ok (some fresh.future) (derived s fresh p f fn c r)
  unfolding derive promise_create then_on node_release inherit_token
  derive-run s fresh p f fn context c r g makes hp e unready no_token pushed =
      let more = base.release-more base.init 0 base.init-fresh.0 in
      simp (
        g.stacks.0,
        g.stacks.1,
        not_null fresh.future g.future.0,
        not_null fresh.promise g.promise,
        not_null fresh.context g.context,
        not_null fresh.node g.node,
        other_ptr p fresh.future g.future.1,
        makes,
        not_null p hp,
        e,
        unready,
        no_token,
        pushed,
        same_ptr p,
        same_ptr fresh.node,
        more.0,
      )

module _ {E S B : Type 0} (host : Host E) (stack : TreiberStack S) (base : NodeBase B)
    (program : Program E S B) (mapping : Mapping E) (maps : IsMapping program mapping)
    (fuel : ℕ) where
  abbrev outer : Call E S B
  outer = call_at host stack base program (suc (suc fuel))

  abbrev the_map : Ptr → (mapper user : ℕ) → Option ℕ → MapContext
  the_map pp mapper user free = record {
    out_promise = pp;
    mapper = mapper;
    user = user;
    free_value = free;
  }

  map_run_pending :
      (s : State E S B) (fresh : Fresh S) (p : Ptr) (f : Future S) (mapper user : ℕ)
      (free : Option ℕ) (r : S)
      → IsGranted host stack base outer program s fresh p
      → IsPending stack base host outer s p f []
      → f.cancel_token ≡ none
      → stack.push f.continuations fresh.node ≡ some r
      → future_map host stack base outer program fresh p (some mapper) user free s
        ≡ ok (some fresh.future) (
            derived host stack base outer program s fresh p f map_fn
              (a_map (the_map fresh.promise mapper user free))
              r)
  unfolding future_map
  map_run_pending s fresh p f mapper user free r g v no_token pushed = simp (
    not_null p v.ne_null,
    derive-run host stack base outer program s fresh p f map_fn
        (λ pp t. ok (a_map (the_map pp mapper user free)) t)
        (a_map (the_map fresh.promise mapper user free)) r g (λ t. refl) v.ne_null v.holds v.unready
        no_token pushed,
  )

  -- A future that UfsrvFutureMap has given, and its input, once the input is completed.
  pub record MappedAfter (s : State E S B) (fresh : Fresh S) (p : Ptr) (mapper user : ℕ)
      (free : Option ℕ) (r : FutureResult) : Type 0 where
    pub between : State E S B
    pub last : State E S B
    pub output : Future S
    pub derives :
        future_map host stack base outer program fresh p (some mapper) user free s
        ≡ ok (some fresh.future) between
    pub silent : between.env ≡ s.env
    pub completes : future_complete host stack base outer p r between ≡ ok true last
    pub holds : last.futures fresh.future ≡ some output
    pub flags : (output.is_completed ≡ true) × (output.is_ready ≡ true) × (output.refcount ≡ 1)
    pub result :
        (output.result, last.env) ≡ mapped mapping (the_map fresh.promise mapper user free) r s.env
    pub freed :
        (last.conts fresh.node ≡ none)
        × (last.promises fresh.promise ≡ none)
        × (last.contexts fresh.context ≡ none)
    pub other_futures : (b : Ptr) → b ≢ p → b ≢ fresh.future → last.futures b ≡ s.futures b

  derived-IsSource :
      (s : State E S B) (fresh : Fresh S) (p : Ptr) (f : Future S) (c : Context) (r : S)
      → IsGranted host stack base outer program s fresh p
      → IsPending stack base host outer s p f []
      → stack.items r ≡ fresh.node ∷ []
      → IsSource host stack base program fuel map_fn
          (derived host stack base outer program s fresh p f map_fn c r)
          p
          fresh.node
          fresh.context
          (record f { continuations = r })
          (new_node host stack base outer program map_fn fresh.context)
  derived-IsSource s fresh p f c r g v items =
      let (more, one, claimed) = base.release-more base.init 0 base.init-fresh.0 in
      record {
        ne_null = (v.ne_null, g.node, g.context);
        holds = ground arith;
        incomplete = v.incomplete;
        no_waiter = v.no_waiter;
        stacked = items;
        node = ground arith;
        refs = one;
        unclaimed = claimed ∙ base.init-fresh.1;
        continuation = (refl, refl);
        attached = v.attached;
      }

  derived-IsOutput :
      (s : State E S B) (fresh : Fresh S) (p : Ptr) (f : Future S) (c : Context) (r : S)
      → IsGranted host stack base outer program s fresh p
      → IsOutput host stack base program fuel
          (derived host stack base outer program s fresh p f map_fn c r)
          fresh.promise
          (new_promise host stack base outer program fresh.future)
          (new_future host stack base outer program)
          []
  derived-IsOutput s fresh p f c r g = record {
    ne_null = g.promise;
    holds = ground arith;
    fresh = refl;
    pending = record {
      ne_null = g.future.0;
      holds = ground (arith, g.future.1);
      incomplete = refl;
      unready = refl;
      unclosed = stack.create-empty.1;
      stacked = stack.create-empty.0;
      queued = tt;
      distinct = tt;
      no_waiter = stack.create-empty.0;
      attached = λ h e. cc;
    };
    shared = omega arith;
  }

  -- With a mapper that acts on the rest of the program only, and two levels of calls or more:
  -- `UfsrvFutureMap` on a future without a token or a handle, that nobody has completed and with nothing
  -- registered on it, where every allocation succeeds, returns a new future and calls nothing. When the input is
  -- completed, the new future is completed and ready with what the mapper makes of the value, with the
  -- destructor given; with the input's error, and the mapper not called, where the input has one; or with
  -- -1 where the mapper gives NULL. It has one reference, the caller's; the node, the promise and the
  -- context are freed, and no future but the two is touched.
  pub future_map-MappedAfter :
      (s : State E S B) (fresh : Fresh S) (p : Ptr) (f : Future S) (mapper user : ℕ)
      (free : Option ℕ) (r : FutureResult)
      → IsGranted host stack base outer program s fresh p
      → IsPending stack base host outer s p f []
      → f.cancel_token ≡ none
      → f.cancel_handle ≡ none
      → MappedAfter s fresh p mapper user free r
  future_map-MappedAfter s fresh p f mapper user free r g v no_token no_handle =
      let (ws, pushed, items, unclosed) = stack.push-open f.continuations fresh.node v.unclosed in
      let m = the_map fresh.promise mapper user free in
      let between = derived host stack base outer program s fresh p f map_fn (a_map m) ws in
      let passed =
        future_complete-Passed host stack base program mapping maps fuel between p fresh.node
          fresh.context (record f { continuations = ws })
          (new_node host stack base outer program map_fn fresh.context) m
          (new_promise host stack base outer program fresh.future)
          (new_future host stack base outer program) [] r
          (derived-IsSource s fresh p f (a_map m) ws g v
            (items ∙ ap (λ l. fresh.node ∷ l) v.stacked))
          (ground arith) (derived-IsOutput s fresh p f (a_map m) ws g)
          (λ same. g.future.1 (sym same)) tt in
      record {
        between = between;
        last = passed.last;
        output = passed.last_future;
        derives = map_run_pending s fresh p f mapper user free ws g v no_token pushed;
        silent = refl;
        completes = passed.run;
        holds = passed.holds;
        flags = (passed.flags.0, passed.flags.1, passed.count);
        result = passed.delivered ∙ simp no_handle;
        freed = passed.freed;
        other_futures = λ b bp bf. passed.other_futures b bp bf ∙ ground arith;
      }
