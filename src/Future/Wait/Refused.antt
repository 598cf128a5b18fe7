-- ===== src/Future/Wait/Refused.antt =====
-- A coroutine in UfsrvFutureGetWithCancellation whose registration with the token is refused.
use ufsrvrxlib.Base.Memory.{not_null, same_ptr}
use ufsrvrxlib.Base.{
  ℕ, suc, Bool, ◌≡◌, refl, ap, ◌≢◌, ◌∙◌, true, false, Option, none, some, List, [], ◌∷◌, arith,
}
use ufsrvrxlib.Base.Int.{negsuc}
use ufsrvrxlib.Future.Interface.{TreiberStack, NodeBase, FutureResult, Host}
use ufsrvrxlib.Future.Heap.{Call, Cmd, Ptr, null, Future, Waiter, State, ok, write}
use ufsrvrxlib.Future.Deliver.{IsPlain}
use ufsrvrxlib.Future.Complete.{unregistered}
use ufsrvrxlib.Future.{error_result, wake_waiter}
use ufsrvrxlib.Future.Wait.{
  Caller, WaitToken, suspended_waiter, push_waiter, register_waiter, get_suspended_cancellable,
  future_get_with_cancellation,
}
use ufsrvrxlib.Future.Wait.Cancelled.{rewritten}
use ufsrvrxlib.Future.Wait.Wake.{IsIdle, Woke, future_complete-stale}

module _ {E S B : Type 0} (host : Host E) (stack : TreiberStack S) (base : NodeBase B) where
  abbrev pub coroutine_of : (sched co : ℕ) → Caller
  coroutine_of sched co = record {
    scheduler = some sched;
    coroutine = some co;
    is_on_worker_thread = true;
  }

  -- The waiter as it is pushed, retained for the token, and rolled back.
  abbrev pushed_waiter : (sched co : ℕ) → Waiter B
  pushed_waiter sched co = suspended_waiter host stack base sched (some co)

  abbrev retained_waiter : (sched co : ℕ) → Waiter B
  retained_waiter sched co = record (pushed_waiter sched co) { base = base.retain base.init }

  abbrev dropped_waiter : (sched co : ℕ) → Waiter B
  dropped_waiter sched co = record (pushed_waiter sched co) {
    base = (base.release (base.retain base.init)).1;
  }

  abbrev rolled_back : (sched co : ℕ) → Waiter B
  rolled_back sched co = record (pushed_waiter sched co) {
    base = (base.release (dropped_waiter sched co).base).1;
  }

  abbrev chapters : (sched co : ℕ) → List (Waiter B)
  chapters sched co =
      pushed_waiter sched co
      ∷ retained_waiter sched co
      ∷ retained_waiter sched co
      ∷ dropped_waiter sched co
      ∷ rolled_back sched co
      ∷ []

  refused_run :
      (s : State E S B) (p a : Ptr) (f : Future S) (ws : S) (sched co : ℕ) (fd : Option ℕ)
      (token : WaitToken E S B) (elsewhere : Cmd E S B (Unit {0})) (ndebug : Bool)
      → p ≢ null
      → a ≢ null
      → s.futures p ≡ some f
      → f.is_ready ≡ false
      → stack.push f.waiters a ≡ some ws
      → ((t : State E S B) → token.is_cancelled t ≡ ok false t)
      → ((t : State E S B) → token.register_resume a t ≡ ok none t)
      → future_get_with_cancellation host stack base ndebug elsewhere a fd
          (coroutine_of sched co)
          (some token)
          p
          s
        ≡ ok (error_result (negsuc 0)) (record s {
          futures = write s.futures p (some (record f { waiters = ws }));
          waiting = rewritten host stack base s.waiting a (chapters sched co);
        })
  unfolding future_get_with_cancellation get_suspended_cancellable push_waiter register_waiter
  refused_run s p a f ws sched co fd token elsewhere ndebug hp ha e unready pushed reads refuses =
      simp (not_null p hp, not_null a ha, same_ptr a, e, unready, pushed, reads, refuses)

  rolled_back-refs :
      (sched co : ℕ)
      → (base.refs (rolled_back sched co).base ≡ 1)
        × (base.claimed (rolled_back sched co).base ≡ false)
  rolled_back-refs sched co =
      let (three, open_yet) = base.retain-more base.init in
      let (more, two, still) =
        base.release-more (base.retain base.init) 1 (three ∙ ap suc base.init-fresh.0) in
      let (last, one, same) = base.release-more (dropped_waiter sched co).base 0 two in
      (one, same ∙ still ∙ open_yet ∙ base.init-fresh.1)

module _ {E S B : Type 0} (host : Host E) (stack : TreiberStack S) (base : NodeBase B)
    (call : Call E S B) (plain : IsPlain host call) where
  -- A wait that was rolled back, and the completion of the future behind it.
  pub record RolledBack (s : State E S B) (p a : Ptr) (f : Future S) (r : FutureResult)
      (Returned : State E S B → Type 0) (resumed : E) : Type 0 where
    pub last : State E S B
    pub waiters : S
    pub returned : Returned last
    pub env : last.env ≡ s.env
    pub holds : last.futures p ≡ some (record f { waiters = waiters })
    pub completion :
        Woke host stack base call plain last p a (record f { waiters = waiters }) r none resumed

  -- A coroutine calls `UfsrvFutureGetWithCancellation` on a future that nobody has completed and with nothing
  -- registered on it, with a token that is not cancelled and refuses the registration: the call returns -1
  -- at once, without a yield. Its waiter stays in the future's stack, and so the completion of the future
  -- later submits that coroutine for resumption all the same, if its scheduler takes it.
  pub future_get_with_cancellation-RolledBack :
      (s : State E S B) (p a : Ptr) (f : Future S) (sched co : ℕ) (fd : Option ℕ)
      (token : WaitToken E S B) (elsewhere : Cmd E S B (Unit {0})) (r : FutureResult) (env : E)
      (ndebug : Bool)
      → IsIdle host stack base call plain s p f
      → a ≢ null
      → ((t : State E S B) → token.is_cancelled t ≡ ok false t)
      → ((t : State E S B) → token.register_resume a t ≡ ok none t)
      → host.submit_resume sched co (unregistered host f.cancel_handle s.env) ≡ some env
      → RolledBack s p a f r
          (λ t.
            future_get_with_cancellation host stack base ndebug elsewhere a fd
              (coroutine_of host stack base sched co)
              (some token)
              p
              s
            ≡ ok (error_result (negsuc 0)) t)
          env
  unfolding wake_waiter
  future_get_with_cancellation-RolledBack s p a f sched co fd token elsewhere r env ndebug v ha
        reads refuses takes =
      let (ws, pushed, items, unclosed) = stack.push-open f.waiters a v.unclosed in
      let (one, un) = rolled_back-refs host stack base sched co in
      let end = record s {
        futures = write s.futures p (some (record f { waiters = ws }));
        waiting = rewritten host stack base s.waiting a (chapters host stack base sched co);
      } in
      record {
        last = end;
        waiters = ws;
        returned =
            refused_run host stack base s p a f ws sched co fd token elsewhere ndebug v.ne_null ha
              v.holds v.unready pushed reads refuses;
        env = refl;
        holds = ground arith;
        completion =
            future_complete-stale host stack base call plain end p a (record f { waiters = ws })
              (rolled_back host stack base sched co) r env
              (record {
                ne_null = (v.ne_null, ha);
                holds = ground arith;
                incomplete = v.incomplete;
                waits = items ∙ ap (λ l. a ∷ l) v.alone.0;
                idle = v.alone.1;
                waiter = ground arith;
                attached = v.attached;
              })
              one un (λ t e. simp (e, takes));
      }
