-- ===== src/Future/Wait/Cancelled.antt =====
-- A thread that blocks in UfsrvFutureGetWithCancellation, and whose token is cancelled meanwhile.
use ufsrvrxlib.Base.Memory.{not_null, same_ptr}
use ufsrvrxlib.Base.{
  ℕ, suc, Bool, ◌≡◌, refl, ap, ◌≢◌, ◌∙◌, true, false, Option, none, some, List, [], ◌∷◌, arith,
}
use ufsrvrxlib.Future.Interface.{TreiberStack, NodeBase, FutureResult, Host}
use ufsrvrxlib.Future.Heap.{
  Call, Cmd, Ptr, null, Future, Waiter, State, ok, and_then, ◌>>◌, change_env, write,
}
use ufsrvrxlib.Future.Deliver.{IsPlain}
use ufsrvrxlib.Future.Complete.{unregistered}
use ufsrvrxlib.Future.{ecanceled, error_result, waiter_release}
use ufsrvrxlib.Future.Wait.{
  Caller, WaitToken, blocking_waiter, push_waiter, wake_waiter_on_cancel, waiter_cancel_release,
  register_waiter, finish_wait, get_blocking_cancellable, future_get_with_cancellation,
}
use ufsrvrxlib.Future.Wait.Wake.{IsIdle, Woke, future_complete-spares}

module _ {E S B : Type 0} (host : Host E) (stack : TreiberStack S) (base : NodeBase B) where
  -- A token that registers the waiter at `a` with the handle `h`, and gives the waiter's reference back
  -- when `h` is unregistered; its own state is in `E`.
  pub record IsTokenFor (token : WaitToken E S B) (a : Ptr) (h : ℕ) : Type 0 where
    pub flag : E → Bool
    pub entering : E → E
    pub leaving : E → E
    pub reads : (s : State E S B) → token.is_cancelled s ≡ ok (flag s.env) s
    pub registers :
        (s : State E S B)
        → token.register_wake a s ≡ ok (some h) (record s { env = entering s.env })
    pub releases :
        (s : State E S B)
        → token.unregister h s
          ≡ and_then
              (waiter_cancel_release host stack base a s)
              (λ _ t. ok tt (record t { env = leaving t.env }))

  abbrev pub rewritten : (Ptr → Option (Waiter B)) → Ptr → List (Waiter B) → Ptr → Option (Waiter B)
  rewritten h a [] = h
  rewritten h a (w ∷ ws) = rewritten (write h a (some w)) a ws

  -- UfsrvCancellationTokenCancel in another thread: it calls sWakeBlockingWaiterOnCancel, and `cancel` is
  -- the rest of what it does.
  abbrev pub cancelling : (cancel : E → E) → Ptr → Cmd E S B (Unit {0})
  cancelling cancel a = wake_waiter_on_cancel host stack base a >> change_env cancel

  abbrev pub blocked : Caller
  blocked = record { scheduler = none; coroutine = none; is_on_worker_thread = false }

  -- The waiter as it is registered, claimed, closed and released twice.
  abbrev registered_waiter : ℕ → ℕ → Waiter B
  registered_waiter fd h = record (blocking_waiter host stack base fd) {
    base = base.retain base.init;
    cancel_handle = some h;
  }

  abbrev claimed_waiter : ℕ → ℕ → Waiter B
  claimed_waiter fd h = record (registered_waiter fd h) {
    base = (base.claim (base.retain base.init)).1;
  }

  abbrev closed_waiter : ℕ → ℕ → Waiter B
  closed_waiter fd h = record (claimed_waiter fd h) { block_fd = none }

  abbrev pub released_waiter : ℕ → ℕ → Waiter B
  released_waiter fd h = record (closed_waiter fd h) {
    base = (base.release (closed_waiter fd h).base).1;
  }

  abbrev pub left_waiter : ℕ → ℕ → Waiter B
  left_waiter fd h = record (closed_waiter fd h) {
    base = (base.release (released_waiter fd h).base).1;
  }

  abbrev chapters : ℕ → ℕ → List (Waiter B)
  chapters fd h =
      blocking_waiter host stack base fd
      ∷ record (blocking_waiter host stack base fd) { base = base.retain base.init }
      ∷ registered_waiter fd h
      ∷ claimed_waiter fd h
      ∷ closed_waiter fd h
      ∷ released_waiter fd h
      ∷ left_waiter fd h
      ∷ []

  abbrev last_env : (entering cancel leaving : E → E) → ℕ → E → E
  last_env entering cancel leaving fd env =
      leaving (host.close_fd fd (cancel (host.write_fd fd (entering env))))

  cancelled_run :
      (s : State E S B) (p a : Ptr) (f : Future S) (ws : S) (fd h : ℕ) (token : WaitToken E S B)
      (is : IsTokenFor token a h) (cancel : E → E) (ndebug : Bool)
      → p ≢ null
      → a ≢ null
      → s.futures p ≡ some f
      → f.is_ready ≡ false
      → stack.push f.waiters a ≡ some ws
      → is.flag s.env ≡ false
      → is.flag (last_env is.entering cancel is.leaving fd s.env) ≡ true
      → (base.claim (base.retain base.init)).0 ≡ true
      → (base.release (closed_waiter fd h).base).0 ≡ false
      → (base.release (released_waiter fd h).base).0 ≡ false
      → future_get_with_cancellation host stack base ndebug
          (cancelling cancel a)
          a
          (some fd)
          blocked
          (some token)
          p
          s
        ≡ ok (error_result ecanceled) (record s {
          futures = write s.futures p (some (record f { waiters = ws }));
          waiting = rewritten s.waiting a (chapters fd h);
          env = last_env is.entering cancel is.leaving fd s.env;
        })
  unfolding future_get_with_cancellation get_blocking_cancellable push_waiter register_waiter
      finish_wait wake_waiter_on_cancel waiter_cancel_release waiter_release
  cancelled_run s p a f ws fd h token is cancel ndebug hp ha e unready pushed before after granted
        more last =
      simp (
        not_null p hp,
        not_null a ha,
        same_ptr a,
        e,
        unready,
        pushed,
        is.reads,
        is.registers,
        is.releases,
        before,
        after,
        granted,
        more,
        last,
      )

  -- The counts and the claim of the waiter, from its start to its end.
  counts :
      (fd h : ℕ)
      → ((base.claim (base.retain base.init)).0 ≡ true)
        × ((base.release (closed_waiter fd h).base).0 ≡ false)
        × ((base.release (released_waiter fd h).base).0 ≡ false)
        × (base.refs (left_waiter fd h).base ≡ 1)
        × (base.claimed (left_waiter fd h).base ≡ true)
  counts fd h =
      let (three, open_yet) = base.retain-more base.init in
      let (granted, marked, kept) =
        base.claim-once (base.retain base.init) (open_yet ∙ base.init-fresh.1) in
      let (more, two, still) =
        base.release-more (closed_waiter fd h).base 1 (kept ∙ three ∙ ap suc base.init-fresh.0) in
      let (last, one, claimed) = base.release-more (released_waiter fd h).base 0 two in
      (granted, more, last, one, claimed ∙ still ∙ marked)

module _ {E S B : Type 0} (host : Host E) (stack : TreiberStack S) (base : NodeBase B)
    (call : Call E S B) (plain : IsPlain host call) where
  -- A wait that was cancelled, and the completion of the future behind it.
  pub record GaveUp (s : State E S B) (p a : Ptr) (f : Future S) (r : FutureResult)
      (Returned : State E S B → Type 0) (env_after : E) : Type 0 where
    pub last : State E S B
    pub waiters : S
    pub left : Waiter B
    pub returned : Returned last
    pub holds : last.futures p ≡ some (record f { waiters = waiters })
    pub waiter : last.waiting a ≡ some left
    pub unfilled : left.block_fd ≡ none
    pub other_futures : (b : Ptr) → b ≢ p → last.futures b ≡ s.futures b
    pub env : last.env ≡ env_after
    pub completion :
        Woke host stack base call plain last p a
          (record f { waiters = waiters })
          r
          none
          (unregistered host f.cancel_handle env_after)

  -- A thread outside every scheduler calls `UfsrvFutureGetWithCancellation` on a future that nobody has
  -- completed and with nothing registered on it, and its token, which registers the waiter with a handle,
  -- gives its reference back when that is unregistered, and is not cancelled at first, is
  -- cancelled while the thread is blocked: the call returns ECANCELED; the waiter's descriptor has been
  -- written to once and then closed, and is -1 in the waiter; the future is still not completed and
  -- differs in its stack of waiters only. When the future is completed later, nobody is woken, the
  -- descriptor is not touched again, and the waiter is freed.
  pub future_get_with_cancellation-GaveUp :
      (s : State E S B) (p a : Ptr) (f : Future S) (fd h : ℕ) (token : WaitToken E S B)
      (is : IsTokenFor host stack base token a h) (cancel : E → E) (r : FutureResult)
      (ndebug : Bool)
      → IsIdle host stack base call plain s p f
      → a ≢ null
      → is.flag s.env ≡ false
      → is.flag (last_env host stack base is.entering cancel is.leaving fd s.env) ≡ true
      → GaveUp s p a f r
          (λ t.
            future_get_with_cancellation host stack base ndebug
              (cancelling host stack base cancel a)
              a
              (some fd)
              (blocked host stack base)
              (some token)
              p
              s
            ≡ ok (error_result ecanceled) t)
          (last_env host stack base is.entering cancel is.leaving fd s.env)
  future_get_with_cancellation-GaveUp s p a f fd h token is cancel r ndebug v ha before after =
      let (ws, pushed, items, unclosed) = stack.push-open f.waiters a v.unclosed in
      let (granted, more, last, one, claimed) = counts host stack base fd h in
      let end = record s {
        futures = write s.futures p (some (record f { waiters = ws }));
        waiting = rewritten host stack base s.waiting a (chapters host stack base fd h);
        env = last_env host stack base is.entering cancel is.leaving fd s.env;
      } in
      record {
        last = end;
        waiters = ws;
        left = left_waiter host stack base fd h;
        returned =
            cancelled_run host stack base s p a f ws fd h token is cancel ndebug v.ne_null ha
              v.holds v.unready pushed before after granted more last;
        holds = ground arith;
        waiter = ground arith;
        unfilled = refl;
        other_futures = λ b ne. ground arith;
        env = refl;
        completion =
            future_complete-spares host stack base call plain end p a (record f { waiters = ws })
              (left_waiter host stack base fd h) r
              (record {
                ne_null = (v.ne_null, ha);
                holds = ground arith;
                incomplete = v.incomplete;
                waits = items ∙ ap (λ l. a ∷ l) v.alone.0;
                idle = v.alone.1;
                waiter = ground arith;
                attached = v.attached;
              })
              one claimed;
      }
