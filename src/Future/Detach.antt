-- ===== src/Future/Detach.antt =====
-- A future that nobody has completed, with its continuations, its waiters and its cancellation handle.
use ufsrvrxlib.Base.{ℕ, ◌-◌, ◌≡◌, refl, ap, inr, ◌≢◌, ◌∙◌, ◌⊎◌, false, Option, none, some, List, []}
use ufsrvrxlib.Future.Interface.{TreiberStack, NodeBase, Host}
use ufsrvrxlib.Future.Heap.{Call, Ptr, null, Future, State, ok, write}
use ufsrvrxlib.Future.Pending.{Registration, Distinct, Queued, addresses, Drops, IsPending}
use ufsrvrxlib.Future.Complete.{kept_refs}
use ufsrvrxlib.Future.Awaited.{Awaiting, spots, Apart, Ready}

module _ {E S B : Type 0} (host : Host E) (stack : TreiberStack S) (base : NodeBase B)
    (call : Call E S B) where
  -- What unregistering does to the future's count: the release hook that
  -- UfsrvFutureAttachCancellation gave the node drops a reference at once, or, inside a Cancel that
  -- runs the node, later.
  abbrev pub Detaches : Ptr → Option ℕ → (before after : ℕ) → Type 0
  Detaches p none before after = after ≡ before
  Detaches p (some h) before after =
      ((after ≡ before) ⊎ ((before ≢ 1) × (after ≡ before - 1)))
      × ((s : State E S B) (g : Future S)
          → s.futures p ≡ some g
          → g.refcount ≡ before
          → call.unregister h s
            ≡ ok tt (record s {
              futures = write s.futures p (some (record g { refcount = after }));
              env = host.token_unregister h s.env;
            }))

  pub Drops-Detaches :
      (p : Ptr) (handle : Option ℕ) (n : ℕ)
      → ((h : ℕ) → handle ≡ some h → (n ≢ 1) × Drops stack base host call p h)
      → Detaches p handle n (kept_refs handle n)
  Drops-Detaches p none n drops = refl
  Drops-Detaches p (some h) n drops =
      let (more, drop) = drops h refl in
      (
        inr (more, refl),
        λ s g e count.
            drop s g e (rw count more)
            ∙ ap
                (λ m. ok tt (record s {
                  futures = write s.futures p (some (record g { refcount = m - 1 }));
                  env = host.token_unregister h s.env;
                }))
                count,
      )

  -- Nobody has completed the future. These continuations are registered on it, the newest first, and
  -- these waiters wait for it; `after` is what unregistering its handle leaves of its count.
  pub record IsAwaited (s : State E S B) (p : Ptr) (f : Future S) (rs : List Registration)
      (ws : List (Awaiting B)) (after : ℕ) : Type 0 where
    pub ne_null : p ≢ null
    pub holds : s.futures p ≡ some f
    pub incomplete : f.is_completed ≡ false
    pub stacked : stack.items f.continuations ≡ addresses rs
    pub queued : Queued stack base s.conts rs
    pub distinct : Distinct rs
    pub waited : stack.items f.waiters ≡ spots ws
    pub ready : Ready host stack base s.waiting ws
    pub apart : Apart ws
    pub detaches : Detaches p f.cancel_handle f.refcount after

  -- A future without a waiter whose handle drops its reference at once is such a one.
  pub IsPending-IsAwaited :
      (s : State E S B) (p : Ptr) (f : Future S) (rs : List Registration)
      → IsPending stack base host call s p f rs
      → IsAwaited s p f rs [] (kept_refs f.cancel_handle f.refcount)
  IsPending-IsAwaited s p f rs o = record {
    ne_null = o.ne_null;
    holds = o.holds;
    incomplete = o.incomplete;
    stacked = o.stacked;
    queued = o.queued;
    distinct = o.distinct;
    waited = o.no_waiter;
    ready = tt;
    apart = tt;
    detaches = Drops-Detaches p f.cancel_handle f.refcount o.attached;
  }

  -- That is about the future, the nodes and the waiters only.
  pub IsAwaited-same :
      (s t : State E S B) (p : Ptr) (f : Future S) (rs : List Registration) (ws : List (Awaiting B))
      (after : ℕ)
      → t.futures p ≡ s.futures p
      → t.conts ≡ s.conts
      → t.waiting ≡ s.waiting
      → IsAwaited s p f rs ws after
      → IsAwaited t p f rs ws after
  IsAwaited-same s t p f rs ws after futures conts waiting w = record {
    ne_null = w.ne_null;
    holds = futures ∙ w.holds;
    incomplete = w.incomplete;
    stacked = w.stacked;
    queued = rw conts w.queued;
    distinct = w.distinct;
    waited = w.waited;
    ready = rw waiting w.ready;
    apart = w.apart;
    detaches = w.detaches;
  }
