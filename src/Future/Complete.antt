-- ===== src/Future/Complete.antt =====
-- sFutureComplete on a future that nobody has completed or waits for.
use ufsrvrxlib.Base.Memory.{not_null, same_ptr}
use ufsrvrxlib.Base.{ℕ, ◌-◌, ◌≡◌, refl, ◌≢◌, ◌∙◌, true, false, Option, none, some, [], arith}
use ufsrvrxlib.Future.Interface.{TreiberStack, NodeBase, FutureResult, Host}
use ufsrvrxlib.Future.Heap.{Call, Ptr, null, Future, State, ok, and_then, write}
use ufsrvrxlib.Future.Pending.{Drops}
use ufsrvrxlib.Future.Deliver.{IsPlain}
use ufsrvrxlib.Future.{
  run_continuations, drain_continuations, wake_waiters, drain_waiters, future_complete,
}

-- The references that are left once the handle, if there is one, is unregistered.
abbrev pub kept_refs : Option ℕ → ℕ → ℕ
kept_refs none n = n
kept_refs (some h) n = n - 1

module _ {E : Type 0} (host : Host E) where
  -- The environment once the handle, if there is one, is unregistered.
  abbrev pub unregistered : Option ℕ → E → E
  unregistered none env = env
  unregistered (some h) env = host.token_unregister h env

module _ {E S B : Type 0} (host : Host E) (stack : TreiberStack S) (base : NodeBase B)
    (call : Call E S B) (plain : IsPlain host call) where
  -- The future that is completed, before its continuations run.
  abbrev pub settled : Future S → FutureResult → Future S
  settled f result = record f {
    is_completed = true;
    is_ready = true;
    result = result;
    cancel_handle = none;
    refcount = kept_refs f.cancel_handle f.refcount;
    waiters = (stack.steal_all_and_close f.waiters).1;
    continuations = (stack.steal_all_and_close f.continuations).1;
  }

  abbrev pub put : Ptr → Future S → State E S B → State E S B
  put p f s = record s { futures = write s.futures p (some f) }

  abbrev pub bare : Future S → FutureResult → Future S
  bare f result = record f {
    is_completed = true;
    result = result;
    is_ready = true;
    cancel_handle = none;
  }

  -- The state in which the handle is unregistered, and the one in which the waiters are woken.
  abbrev pub cleared : State E S B → Ptr → Future S → FutureResult → State E S B
  cleared s p f result =
      let done = record f { is_completed = true } in
      let ready = record done { result = result; is_ready = true } in
      put p (bare f result) (put p ready (put p done s))

  abbrev dropped : Option ℕ → (Ptr → Option (Future S)) → Ptr → Future S → Ptr → Option (Future S)
  dropped none h p f = h
  dropped (some _) h p f = write h p (some (record f { refcount = f.refcount - 1 }))

  abbrev pub detached : State E S B → Ptr → Future S → FutureResult → Option ℕ → State E S B
  detached s p f result handle = record (cleared s p f result) {
    futures = dropped handle (cleared s p f result).futures p (bare f result);
    env = unregistered host handle s.env;
  }

  -- The state that the loop over the continuations starts in.
  abbrev pub opened : State E S B → Ptr → Future S → FutureResult → Option ℕ → State E S B
  opened s p f result handle =
      let b = record (bare f result) { refcount = kept_refs handle f.refcount } in
      let woken = record b { waiters = (stack.steal_all_and_close f.waiters).1 } in
      put p (record woken { continuations = (stack.steal_all_and_close f.continuations).1 })
        (put p woken (detached s p f result handle))

  pub dropped-other :
      (s : State E S B) (p q : Ptr) (f : Future S) (result : FutureResult) (handle : Option ℕ)
      → q ≢ p
      → (opened s p f result handle).futures q ≡ s.futures q
  dropped-other s p q f result none ne = ground arith
  dropped-other s p q f result (some h) ne = ground arith

  pub complete-opened :
      (s : State E S B) (p : Ptr) (f : Future S) (result : FutureResult) (handle : Option ℕ)
      → p ≢ null
      → s.futures p ≡ some f
      → f.is_completed ≡ false
      → stack.items f.waiters ≡ []
      → f.cancel_handle ≡ handle
      → ((h : ℕ) → handle ≡ some h → (f.refcount ≢ 1) × Drops stack base host call p h)
      → future_complete host stack base call p result s
        ≡ and_then
            (run_continuations host stack base call p
              (stack.steal_all_and_close f.continuations).0
              (opened s p f result handle))
            (λ _ t. ok true t)
  unfolding future_complete drain_waiters drain_continuations wake_waiters
  complete-opened s p f result none hp e open_yet idle none_left drops =
      let woken : (stack.steal_all_and_close f.waiters).0 ≡ [] =
        stack.steal-items f.waiters ∙ idle in
      simp (not_null p hp, e, open_yet, same_ptr p, none_left, woken)
  complete-opened s p f result (some h) hp e open_yet idle given drops =
      let woken : (stack.steal_all_and_close f.waiters).0 ≡ [] =
        stack.steal-items f.waiters ∙ idle in
      let (more, drop) = drops h refl in
      let drop_one =
        simp given at (drop (cleared s p f result) (bare f result) (ground arith) more) in
      simp (not_null p hp, e, open_yet, same_ptr p, given, drop_one, woken)
