-- ===== src/Future/Wait/Wake.antt =====
-- sFutureComplete on a future with one waiter and no continuation.
use ufsrvrxlib.Base.Memory.{not_null, same_ptr}
use ufsrvrxlib.Base.{ℕ, ◌≡◌, refl, ◌≢◌, ◌∙◌, true, false, Option, none, some, [], ◌∷◌, arith}
use ufsrvrxlib.Future.Interface.{TreiberStack, NodeBase, FutureResult, Host}
use ufsrvrxlib.Future.Heap.{Call, Ptr, null, Future, Waiter, State, ok, and_then, write}
use ufsrvrxlib.Future.Pending.{Drops}
use ufsrvrxlib.Future.Deliver.{IsPlain}
use ufsrvrxlib.Future.Complete.{kept_refs, unregistered, settled, bare, detached, put}
use ufsrvrxlib.Future.{
  wake_waiter, waiter_release, wake_waiters, drain_waiters, run_continuations, drain_continuations,
  future_complete,
}

module _ {E S B : Type 0} (host : Host E) (stack : TreiberStack S) (base : NodeBase B) where
  -- A waiter that was claimed and whose stack's reference is gone.
  abbrev pub spent : Waiter B → Waiter B
  spent w = record w { base = (base.release (base.claim w.base).1).1 }

  abbrev after_wake : State E S B → Ptr → Option (Waiter B) → Waiter B → E → State E S B
  after_wake s a left w env = record s {
    waiting = write (write s.waiting a (some (record w { base = (base.claim w.base).1 }))) a left;
    env = env;
  }

  -- The waiting thread holds a reference, and the waiter is not claimed: it is woken.
  wake_one :
      (s : State E S B) (a : Ptr) (w : Waiter B) (env : E)
      → a ≢ null
      → s.waiting a ≡ some w
      → base.refs w.base ≡ 2
      → base.claimed w.base ≡ false
      → ((t : State E S B)
          → t.env ≡ s.env
          → wake_waiter host stack base w t ≡ ok tt (record t { env = env }))
      → wake_waiters host stack base (a ∷ []) s ≡ ok tt (after_wake s a (some (spent w)) w env)
  unfolding wake_waiters waiter_release
  wake_one s a w env ha e two un wakes =
      let (granted, marked, kept) = base.claim-once w.base un in
      let more = base.release-more (base.claim w.base).1 0 (kept ∙ two) in
      simp (not_null a ha, e, granted, wakes, same_ptr a, more.0)

  -- Nobody else holds a reference, and the waiter was claimed: it is freed, and nobody is woken.
  wake_none :
      (s : State E S B) (a : Ptr) (w : Waiter B)
      → a ≢ null
      → s.waiting a ≡ some w
      → base.refs w.base ≡ 1
      → base.claimed w.base ≡ true
      → wake_waiters host stack base (a ∷ []) s ≡ ok tt (after_wake s a none w s.env)
  unfolding wake_waiters waiter_release
  wake_none s a w ha e one claimed =
      let (refused, still, kept) = base.claim-again w.base claimed in
      let last = base.release-last (base.claim w.base).1 (kept ∙ one) in
      simp (not_null a ha, e, refused, same_ptr a, last)

  -- Nobody else holds a reference, but the waiter is not claimed: it is woken and freed.
  wake_stale :
      (s : State E S B) (a : Ptr) (w : Waiter B) (env : E)
      → a ≢ null
      → s.waiting a ≡ some w
      → base.refs w.base ≡ 1
      → base.claimed w.base ≡ false
      → ((t : State E S B)
          → t.env ≡ s.env
          → wake_waiter host stack base w t ≡ ok tt (record t { env = env }))
      → wake_waiters host stack base (a ∷ []) s ≡ ok tt (after_wake s a none w env)
  unfolding wake_waiters waiter_release
  wake_stale s a w env ha e one un wakes =
      let (granted, marked, kept) = base.claim-once w.base un in
      let last = base.release-last (base.claim w.base).1 (kept ∙ one) in
      simp (not_null a ha, e, granted, wakes, same_ptr a, last)

module _ {E S B : Type 0} (host : Host E) (stack : TreiberStack S) (base : NodeBase B)
    (call : Call E S B) (plain : IsPlain host call) where
  -- The state in which the waiters are woken.
  abbrev half : State E S B → Ptr → Future S → FutureResult → Option ℕ → State E S B
  half s p f r handle =
      put host stack base call plain p
        (record (bare host stack base call plain f r) {
          refcount = kept_refs handle f.refcount;
          waiters = (stack.steal_all_and_close f.waiters).1;
        })
        (detached host stack base call plain s p f r handle)

  complete-half :
      (s : State E S B) (p : Ptr) (f : Future S) (r : FutureResult) (handle : Option ℕ)
      → p ≢ null
      → s.futures p ≡ some f
      → f.is_completed ≡ false
      → f.cancel_handle ≡ handle
      → ((h : ℕ) → handle ≡ some h → (f.refcount ≢ 1) × Drops stack base host call p h)
      → future_complete host stack base call p r s
        ≡ and_then
            (wake_waiters host stack base
              (stack.steal_all_and_close f.waiters).0
              (half s p f r handle))
            (λ _ t. and_then (drain_continuations host stack base call p t) (λ _ u. ok true u))
  unfolding future_complete drain_waiters
  complete-half s p f r none hp e open_yet none_left drops =
      simp (not_null p hp, e, open_yet, same_ptr p, none_left)
  complete-half s p f r (some h) hp e open_yet given drops =
      let (more, drop) = drops h refl in
      let drop_one = simp given at (
        drop
          (record s {
            futures =
                write
                  (write (write s.futures p (some (record f { is_completed = true }))) p
                    (some (record f { is_completed = true; result = r; is_ready = true })))
                  p (some (bare host stack base call plain f r));
          })
          (bare host stack base call plain f r) (ground arith) more) in
      simp (not_null p hp, e, open_yet, same_ptr p, given, drop_one)

  drain_none :
      (s : State E S B) (p : Ptr) (f : Future S)
      → p ≢ null
      → s.futures p ≡ some f
      → stack.items f.continuations ≡ []
      → drain_continuations host stack base call p s
        ≡ ok tt (record s {
          futures =
              write s.futures p
                (some (record f { continuations = (stack.steal_all_and_close f.continuations).1 }));
        })
  unfolding drain_continuations run_continuations
  drain_none s p f hp e idle =
      let none_left : (stack.steal_all_and_close f.continuations).0 ≡ [] =
        stack.steal-items f.continuations ∙ idle in
      simp (not_null p hp, e, none_left)

  -- A future that nobody has completed and with nothing registered on it.
  pub record IsIdle (s : State E S B) (p : Ptr) (f : Future S) : Type 0 where
    pub ne_null : p ≢ null
    pub holds : s.futures p ≡ some f
    pub incomplete : f.is_completed ≡ false
    pub unready : f.is_ready ≡ false
    pub unclosed : stack.is_closed f.waiters ≡ false
    pub alone : (stack.items f.waiters ≡ []) × (stack.items f.continuations ≡ [])
    pub attached :
        (h : ℕ) → f.cancel_handle ≡ some h → (f.refcount ≢ 1) × Drops stack base host call p h

  -- A future that is not completed, with one waiter and no continuation.
  pub record IsAwaited (s : State E S B) (p a : Ptr) (f : Future S) (w : Waiter B) : Type 0 where
    pub ne_null : (p ≢ null) × (a ≢ null)
    pub holds : s.futures p ≡ some f
    pub incomplete : f.is_completed ≡ false
    pub waits : stack.items f.waiters ≡ a ∷ []
    pub idle : stack.items f.continuations ≡ []
    pub waiter : s.waiting a ≡ some w
    pub attached :
        (h : ℕ) → f.cancel_handle ≡ some h → (f.refcount ≢ 1) × Drops stack base host call p h

  -- What its completion leaves behind, by what is left of the waiter.
  pub record Woke (s : State E S B) (p a : Ptr) (f : Future S) (r : FutureResult)
      (left : Option (Waiter B)) (woken : E) : Type 0 where
    pub last : State E S B
    pub run : future_complete host stack base call p r s ≡ ok true last
    pub holds : last.futures p ≡ some (settled host stack base call plain f r)
    pub waiter : last.waiting a ≡ left
    pub env : last.env ≡ woken
    pub conts : last.conts ≡ s.conts
    pub promises : last.promises ≡ s.promises
    pub contexts : last.contexts ≡ s.contexts
    pub other_waiters : (b : Ptr) → b ≢ a → last.waiting b ≡ s.waiting b

  complete_waking :
      (s : State E S B) (p a : Ptr) (f : Future S) (w : Waiter B) (r : FutureResult)
      (left : Option (Waiter B)) (env : E)
      → IsAwaited s p a f w
      → wake_waiters host stack base (a ∷ []) (half s p f r f.cancel_handle)
        ≡ ok tt (after_wake host stack base (half s p f r f.cancel_handle) a left w env)
      → Woke s p a f r left env
  complete_waking s p a f w r left env v wakes =
      let start =
        complete-half s p f r f.cancel_handle v.ne_null.0 v.holds v.incomplete refl v.attached in
      let items : (stack.steal_all_and_close f.waiters).0 ≡ a ∷ [] =
        stack.steal-items f.waiters ∙ v.waits in
      let woken = after_wake host stack base (half s p f r f.cancel_handle) a left w env in
      let last =
        drain_none woken p
          (record (bare host stack base call plain f r) {
            refcount = kept_refs f.cancel_handle f.refcount;
            waiters = (stack.steal_all_and_close f.waiters).1;
          })
          v.ne_null.0 (ground arith) v.idle in
      record {
        last = record woken {
          futures = write woken.futures p (some (settled host stack base call plain f r));
        };
        run = start ∙ simp (items, wakes, last);
        holds = ground arith;
        waiter = ground arith;
        env = refl;
        conts = refl;
        promises = refl;
        contexts = refl;
        other_waiters = λ b ne. ground arith;
      }

  -- Completing a future wakes the thread or coroutine that waits for it, once, behind the handle's end.
  pub future_complete-wakes :
      (s : State E S B) (p a : Ptr) (f : Future S) (w : Waiter B) (r : FutureResult) (env : E)
      → IsAwaited s p a f w
      → base.refs w.base ≡ 2
      → base.claimed w.base ≡ false
      → ((t : State E S B)
          → t.env ≡ unregistered host f.cancel_handle s.env
          → wake_waiter host stack base w t ≡ ok tt (record t { env = env }))
      → Woke s p a f r (some (spent host stack base w)) env
  future_complete-wakes s p a f w r env v two un wakes =
      complete_waking s p a f w r (some (spent host stack base w)) env v (
        wake_one host stack base (half s p f r f.cancel_handle) a w env v.ne_null.1 v.waiter two un
          wakes)

  -- A waiter that a cancellation woke first, and whose thread has gone, is freed, and nobody is woken.
  pub future_complete-spares :
      (s : State E S B) (p a : Ptr) (f : Future S) (w : Waiter B) (r : FutureResult)
      → IsAwaited s p a f w
      → base.refs w.base ≡ 1
      → base.claimed w.base ≡ true
      → Woke s p a f r none (unregistered host f.cancel_handle s.env)
  future_complete-spares s p a f w r v one claimed =
      complete_waking s p a f w r none (unregistered host f.cancel_handle s.env) v (
        wake_none host stack base (half s p f r f.cancel_handle) a w v.ne_null.1 v.waiter one
          claimed)

  -- A waiter that was left in the stack, unclaimed and with the stack's reference only, is woken and freed.
  pub future_complete-stale :
      (s : State E S B) (p a : Ptr) (f : Future S) (w : Waiter B) (r : FutureResult) (env : E)
      → IsAwaited s p a f w
      → base.refs w.base ≡ 1
      → base.claimed w.base ≡ false
      → ((t : State E S B)
          → t.env ≡ unregistered host f.cancel_handle s.env
          → wake_waiter host stack base w t ≡ ok tt (record t { env = env }))
      → Woke s p a f r none env
  future_complete-stale s p a f w r env v one un wakes = complete_waking s p a f w r none env v (
      wake_stale host stack base (half s p f r f.cancel_handle) a w env v.ne_null.1 v.waiter one un
        wakes)
