-- ===== src/Future/Release.antt =====
-- UfsrvFutureRelease on a future whose stacks are empty, as they are once it is completed.
use ufsrvrxlib.Base.Memory.{not_null, same_ptr}
use ufsrvrxlib.Base.{
  ℕ, ◌-◌, ◌≡◌, refl, ◌≢◌, ◌∙◌, Bool, true, false, Option, none, some, [], arith, ◌==◌, Bool-cases,
  inl, inr,
}
use ufsrvrxlib.Future.Interface.{TreiberStack, NodeBase, Host}
use ufsrvrxlib.Future.Heap.{Ptr, null, Future, State, ok, write}
use ufsrvrxlib.Future.{free_result}
use ufsrvrxlib.Future.Promises.{future_release, release_conts, release_waiters}

module _ {E S B : Type 0} (host : Host E) (stack : TreiberStack S) (base : NodeBase B) where
  abbrev pub token_dropped : Option ℕ → E → E
  token_dropped none env = env
  token_dropped (some t) env = host.token_destroy t env

  -- The future and the environment behind a release, by whether the reference was the last.
  abbrev pub Released : (s t : State E S B) → Ptr → Future S → Bool → Type 0
  Released s t p f true =
      (t.futures p ≡ none)
      × (t.env ≡ token_dropped f.cancel_token (free_result host stack base f.result s.env))
  Released s t p f false =
      (t.futures p ≡ some (record f { refcount = f.refcount - 1 })) × (t.env ≡ s.env)

  abbrev counted : State E S B → Ptr → Future S → State E S B
  counted s p f = record s {
    futures = write s.futures p (some (record f { refcount = f.refcount - 1 }));
  }

  abbrev freed : State E S B → Ptr → Future S → State E S B
  freed s p f = record s {
    futures = write (counted s p f).futures p none;
    env = token_dropped f.cancel_token (free_result host stack base f.result s.env);
  }

  release-last :
      (s : State E S B) (p : Ptr) (f : Future S) (token : Option ℕ)
      → p ≢ null
      → s.futures p ≡ some f
      → stack.items f.continuations ≡ []
      → stack.items f.waiters ≡ []
      → (f.refcount == 1) ≡ true
      → f.cancel_token ≡ token
      → future_release host stack base p s ≡ ok tt (freed s p f)
  unfolding future_release release_conts release_waiters
  release-last s p f none hp e cs ws one given =
      let no_conts : (stack.steal_all_and_close f.continuations).0 ≡ [] =
        stack.steal-items f.continuations ∙ cs in
      let no_waiters : (stack.steal_all_and_close f.waiters).0 ≡ [] =
        stack.steal-items f.waiters ∙ ws in
      simp (not_null p hp, e, one, same_ptr p, no_conts, no_waiters, given)
  release-last s p f (some t) hp e cs ws one given =
      let no_conts : (stack.steal_all_and_close f.continuations).0 ≡ [] =
        stack.steal-items f.continuations ∙ cs in
      let no_waiters : (stack.steal_all_and_close f.waiters).0 ≡ [] =
        stack.steal-items f.waiters ∙ ws in
      simp (not_null p hp, e, one, same_ptr p, no_conts, no_waiters, given)

  pub release-shared :
      (s : State E S B) (p : Ptr) (f : Future S)
      → p ≢ null
      → s.futures p ≡ some f
      → (f.refcount == 1) ≡ false
      → future_release host stack base p s ≡ ok tt (counted s p f)
  unfolding future_release
  release-shared s p f hp e more = simp (not_null p hp, e, more)

  -- `UfsrvFutureRelease` on a future with nothing in its stacks: where the count is 1, it frees the value
  -- by its destructor, drops the reference of the cancellation token, each where there is one, and
  -- frees the future; where it is not, it takes one from the count and does nothing else. No other
  -- future, no continuation, no promise and no context is touched.
  pub future_release-Released :
      (s : State E S B) (p : Ptr) (f : Future S)
      → p ≢ null
      → s.futures p ≡ some f
      → stack.items f.continuations ≡ []
      → stack.items f.waiters ≡ []
      → (t : State E S B) × (future_release host stack base p s ≡ ok tt t)
        × Released s t p f (f.refcount == 1)
        × ((q : Ptr) → q ≢ p → t.futures q ≡ s.futures q)
        × (t.conts ≡ s.conts)
        × (t.promises ≡ s.promises)
        × (t.contexts ≡ s.contexts)
  future_release-Released s p f hp e cs ws = elim (Bool-cases (f.refcount == 1)) [
    | inl one ↦ (
      freed s p f,
      release-last s p f f.cancel_token hp e cs ws one refl,
      rw one (ground arith, refl),
      λ q ne. ground arith,
      refl,
      refl,
      refl,
    )
    | inr more ↦ (
      counted s p f,
      release-shared s p f hp e more,
      rw more (ground arith, refl),
      λ q ne. ground arith,
      refl,
      refl,
      refl,
    )
  ]

  pub future_release-last :
      (s : State E S B) (p : Ptr) (f : Future S)
      → p ≢ null
      → s.futures p ≡ some f
      → stack.items f.continuations ≡ []
      → stack.items f.waiters ≡ []
      → f.refcount ≡ 1
      → (t : State E S B) × (future_release host stack base p s ≡ ok tt t)
        × ((t.futures p ≡ none)
            × (t.env ≡ token_dropped f.cancel_token (free_result host stack base f.result s.env)))
        × ((q : Ptr) → q ≢ p → t.futures q ≡ s.futures q)
        × (t.conts ≡ s.conts)
        × (t.promises ≡ s.promises)
        × (t.contexts ≡ s.contexts)
  future_release-last s p f hp e cs ws one = rw one at (future_release-Released s p f hp e cs ws)
