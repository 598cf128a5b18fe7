-- ===== src/Future/Then.antt =====
-- sFutureThen on a pending and on a completed future.
use ufsrvrxlib.Base.Memory.{not_null, same_ptr}
use ufsrvrxlib.Base.{
  ℕ, ◌≡◌, refl, sym, ap, ◌⊎◌, inl, inr, Bool-cases, ◌≢◌, ◌∙◌, true, false, none, some, List, ◌∷◌,
  arith,
}
use ufsrvrxlib.Future.Interface.{TreiberStack, NodeBase, FutureResult, Host}
use ufsrvrxlib.Future.Heap.{Fn, user_fn, Call, Ptr, null, Future, Continuation, State, ok, write}
use ufsrvrxlib.Future.Pending.{Registration, Queued-write, unused-Out, IsPending}
use ufsrvrxlib.Future.Deliver.{IsPlain}
use ufsrvrxlib.Future.{deliver, node_release, node_discard, then_on, future_complete}

module _ {E S B : Type 0} (host : Host E) where
  -- The state once a continuation has been called on the future's result.
  abbrev pub called : State E S B → Ptr → Future S → (fn user : ℕ) → State E S B
  called s p f fn user = record s {
    futures =
        write s.futures p (some (record f { result = (host.deliver fn user f.result s.env).0 }));
    env = (host.deliver fn user f.result s.env).1;
  }

module _ {E S B : Type 0} (host : Host E) (stack : TreiberStack S) (base : NodeBase B)
    (call : Call E S B) (plain : IsPlain host call) where
  abbrev pub fresh_node : Fn → (user : ℕ) → Continuation B
  fresh_node fn user = record { base = base.init; fn = fn; user = user }

  pub then_on-run :
      (s : State E S B) (p a : Ptr) (f : Future S) (fn : Fn) (user : ℕ) (r : S)
      → p ≢ null
      → a ≢ null
      → s.futures p ≡ some f
      → f.is_ready ≡ false
      → stack.push f.continuations a ≡ some r
      → then_on host stack base call a p fn user s
        ≡ ok true (record s {
          futures = write s.futures p (some (record f { continuations = r }));
          conts =
              write
                (write s.conts a (some (fresh_node fn user)))
                a
                (some (record (fresh_node fn user) { base = (base.release base.init).1 }));
        })
  unfolding then_on node_release
  then_on-run s p a f fn user r hp ha e unready pushed =
      let more = base.release-more base.init 0 base.init-fresh.0 in
      simp (not_null p hp, not_null a ha, e, unready, pushed, same_ptr a, more.0)

  -- What a registration on a pending future leaves behind.
  pub record Registered (s : State E S B) (a p : Ptr) (f : Future S) (fn user : ℕ)
      (rs : List Registration) : Type 0 where
    pub last : State E S B
    pub last_future : Future S
    pub run : then_on host stack base call a p (user_fn fn) user s ≡ ok true last
    pub pending :
        IsPending stack base host call last p last_future
          (record { at = a; fn = fn; user = user } ∷ rs)
    pub env : last.env ≡ s.env
    pub kept :
        (last_future.result ≡ f.result)
        × (last_future.refcount ≡ f.refcount)
        × (last_future.cancel_token ≡ f.cancel_token)
        × (last_future.cancel_handle ≡ f.cancel_handle)
    pub other_futures : (q : Ptr) → q ≢ p → last.futures q ≡ s.futures q

  -- On a pending future, and with a new node, `sFutureThen` returns true. The future is still pending,
  -- with the continuation registered before all that were; no continuation has run; the future keeps
  -- its result, its count, its token and its handle, and no other future is touched.
  pub then_on-Registered :
      (s : State E S B) (a p : Ptr) (f : Future S) (fn user : ℕ) (rs : List Registration)
      → IsPending stack base host call s p f rs
      → a ≢ null
      → s.conts a ≡ none
      → Registered s a p f fn user rs
  then_on-Registered s a p f fn user rs pending ha unused =
      let (r, pushed, items, unclosed) = stack.push-open f.continuations a pending.unclosed in
      let (more, one, claimed) = base.release-more base.init 0 base.init-fresh.0 in
      let out = unused-Out stack base s.conts a rs pending.queued unused in
      record {
        last = record s {
          futures = write s.futures p (some (record f { continuations = r }));
          conts =
              write (write s.conts a (some (fresh_node (user_fn fn) user))) a (
                some (record (fresh_node (user_fn fn) user) { base = (base.release base.init).1 }));
        };
        last_future = record f { continuations = r };
        run =
            then_on-run s p a f (user_fn fn) user r pending.ne_null ha pending.holds pending.unready
              pushed;
        pending = record {
          ne_null = pending.ne_null;
          holds = ground arith;
          incomplete = pending.incomplete;
          unready = pending.unready;
          unclosed = unclosed;
          stacked = items ∙ ap (λ l. a ∷ l) pending.stacked;
          queued = (
            (
              ha,
              (
                record (fresh_node (user_fn fn) user) { base = (base.release base.init).1 },
                ground arith,
                record {
                  one = one;
                  unclaimed = claimed ∙ base.init-fresh.1;
                  fn = refl;
                  user = refl;
                },
              ),
            ),
            Queued-write stack base _ a _ rs out
                (Queued-write stack base s.conts a _ rs out pending.queued),
          );
          distinct = (out, pending.distinct);
          no_waiter = pending.no_waiter;
          attached = pending.attached;
        };
        env = refl;
        kept = (refl, refl, refl, refl);
        other_futures = λ q ne. ground arith;
      }

  pub then_on-ready :
      (s : State E S B) (a p : Ptr) (f : Future S) (fn user : ℕ)
      → p ≢ null
      → s.futures p ≡ some f
      → f.is_ready ≡ true
      → then_on host stack base call a p (user_fn fn) user s ≡ ok true (called host s p f fn user)
  unfolding then_on deliver
  then_on-ready s a p f fn user hp e ready = simp (not_null p hp, e, ready, plain fn)

  -- What a registration does that finds the stack closed.
  pub record Refused (s : State E S B) (a p : Ptr) (f : Future S) (fn user : ℕ) : Type 0 where
    pub last : State E S B
    pub run : then_on host stack base call a p (user_fn fn) user s ≡ ok true last
    pub futures : last.futures ≡ (called host s p f fn user).futures
    pub env : last.env ≡ (called host s p f fn user).env
    pub freed : last.conts a ≡ none
    pub other_nodes : (b : Ptr) → b ≢ a → last.conts b ≡ s.conts b

  pub then_on-Refused :
      (s : State E S B) (a p : Ptr) (f : Future S) (fn user : ℕ)
      → p ≢ null
      → a ≢ null
      → s.futures p ≡ some f
      → f.is_ready ≡ false
      → stack.is_closed f.continuations ≡ true
      → Refused s a p f fn user
  unfolding then_on deliver node_discard node_release
  then_on-Refused s a p f fn user hp ha e unready shut =
      let refused = stack.push-closed f.continuations a shut in
      let more = base.release-more base.init 0 base.init-fresh.0 in
      let last = base.release-last (base.release base.init).1 more.1 in
      record {
        last = record (called host s p f fn user) {
          conts =
              write
                (write (write s.conts a (some (fresh_node (user_fn fn) user))) a (
                  some
                    (record (fresh_node (user_fn fn) user) { base = (base.release base.init).1 })))
                a none;
        };
        run = simp (not_null p hp, not_null a ha, e, unready, refused, plain fn, same_ptr a, last);
        futures = refl;
        env = refl;
        freed = ground arith;
        other_nodes = λ b ne. ground arith;
      }

  -- On a completed future, `sFutureThen` returns true and has called the continuation exactly once on
  -- the future's result, whether it read that the future was ready or its push of a new node found the
  -- stack closed; no node is left behind.
  pub then_on_completed :
      (s : State E S B) (a p : Ptr) (f : Future S) (fn user : ℕ)
      → p ≢ null
      → a ≢ null
      → s.conts a ≡ none
      → s.futures p ≡ some f
      → (f.is_ready ≡ true) ⊎ (stack.is_closed f.continuations ≡ true)
      → (t : State E S B) × (then_on host stack base call a p (user_fn fn) user s ≡ ok true t)
        × (t.futures ≡ (called host s p f fn user).futures)
        × (t.env ≡ (called host s p f fn user).env)
        × ((b : Ptr) → t.conts b ≡ s.conts b)
  then_on_completed s a p f fn user hp ha unused e cause = elim (Bool-cases f.is_ready) [
    | inl ready ↦
        (called host s p f fn user, then_on-ready s a p f fn user hp e ready, refl, refl, λ b. refl)
    | inr unready ↦
        let shut : stack.is_closed f.continuations ≡ true = grind (arith, cause) in
        let r = then_on-Refused s a p f fn user hp ha e unready shut in
        (r.last, r.run, r.futures, r.env, λ b. ground (arith, r.freed, r.other_nodes b))
  ]

  pub future_complete-again :
      (s : State E S B) (p : Ptr) (f : Future S) (result : FutureResult)
      → p ≢ null
      → s.futures p ≡ some f
      → f.is_completed ≡ true
      → (t : State E S B) × (future_complete host stack base call p result s ≡ ok false t)
        × ((q : Ptr) → t.futures q ≡ s.futures q)
        × (t.env ≡ s.env)
        × (t.conts ≡ s.conts)
        × (t.promises ≡ s.promises)
  unfolding future_complete
  future_complete-again s p f result hp e done =
      let same : some (record f { is_completed = true }) ≡ some f =
        ap (λ b. some (record f { is_completed = b })) (sym done) in
      (
        record s { futures = write s.futures p (some (record f { is_completed = true })) },
        simp (not_null p hp, e, done),
        λ q. ground (arith, same, e),
        refl,
        refl,
        refl,
      )
