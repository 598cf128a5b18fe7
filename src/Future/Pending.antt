-- ===== src/Future/Pending.antt =====
-- A future that is not completed, with the continuations registered on it.
use ufsrvrxlib.Base.{◌-◌, ℕ, ◌≡◌, ◌∙◌, ◌≢◌, false, Option, none, some, List, [], ◌∷◌, arith, All}
use ufsrvrxlib.Future.Interface.{TreiberStack, NodeBase, Host}
use ufsrvrxlib.Future.Heap.{user_fn, ok, Call, Ptr, null, Future, Continuation, State, write}

-- A registration of one of the program's continuations: its node, the function and its context.
pub record Registration : Type 0 where
  pub at : Ptr
  pub fn : ℕ
  pub user : ℕ

abbrev pub Out : Ptr → List Registration → Type 0
Out a rs = All (λ r. r.at ≢ a) rs

abbrev pub Distinct : List Registration → Type 0
Distinct [] = Unit {0}
Distinct (r ∷ rs) = Out r.at rs × Distinct rs

abbrev pub addresses : List Registration → List Ptr
addresses [] = []
addresses (r ∷ rs) = r.at ∷ addresses rs

module _ {S B : Type 0} (stack : TreiberStack S) (base : NodeBase B) where
  -- A node that only the stack refers to, not claimed yet.
  pub record IsNode (r : Registration) (n : Continuation B) : Type 0 where
    pub one : base.refs n.base ≡ 1
    pub unclaimed : base.claimed n.base ≡ false
    pub fn : n.fn ≡ user_fn r.fn
    pub user : n.user ≡ r.user

  abbrev pub Queued : (Ptr → Option (Continuation B)) → List Registration → Type 0
  Queued h rs =
      All (λ r. (r.at ≢ null) × ((n : Continuation B) × (h r.at ≡ some n) × IsNode r n)) rs

  pub Queued-write :
      (h : Ptr → Option (Continuation B)) (a : Ptr) (c : Option (Continuation B))
      (rs : List Registration)
      → Out a rs
      → Queued h rs
      → Queued (write h a c) rs
  Queued-write h a c [] out q = tt
  Queued-write h a c (r ∷ rs) out ((ne, (n, at, is)), q) =
      ((ne, (n, ground arith, is)), Queued-write h a c rs out.1 q)

  pub unused-Out :
      (h : Ptr → Option (Continuation B)) (a : Ptr) (rs : List Registration)
      → Queued h rs
      → h a ≡ none
      → Out a rs
  unused-Out h a [] q unused = tt
  unused-Out h a (r ∷ rs) ((ne, (n, at, is)), q) unused = (ground arith, unused-Out h a rs q unused)

  -- Outside a Cancel that runs the node, unregistering the handle runs at once the release hook that
  -- UfsrvFutureAttachCancellation gave it, which drops a reference of the future; the rest of it happens
  -- outside the futures.
  abbrev pub Drops : {E : Type 0} → Host E → Call E S B → Ptr → ℕ → Type 0
  Drops {E} host call p h =
      (s : State E S B) (g : Future S)
      → s.futures p ≡ some g
      → g.refcount ≢ 1
      → call.unregister h s
        ≡ ok tt (record s {
          futures = write s.futures p (some (record g { refcount = g.refcount - 1 }));
          env = host.token_unregister h s.env;
        })

  -- Not completed, no waiter, and these continuations, the newest first. A handle that the future has
  -- holds one of its references.
  pub record IsPending {E : Type 0} (host : Host E) (call : Call E S B) (s : State E S B) (p : Ptr)
      (f : Future S) (rs : List Registration) : Type 0 where
    pub ne_null : p ≢ null
    pub holds : s.futures p ≡ some f
    pub incomplete : f.is_completed ≡ false
    pub unready : f.is_ready ≡ false
    pub unclosed : stack.is_closed f.continuations ≡ false
    pub stacked : stack.items f.continuations ≡ addresses rs
    pub queued : Queued s.conts rs
    pub distinct : Distinct rs
    pub no_waiter : stack.items f.waiters ≡ []
    pub attached : (h : ℕ) → f.cancel_handle ≡ some h → (f.refcount ≢ 1) × Drops host call p h

  -- Being pending is about the future and the nodes only.
  pub IsPending-same :
      {E : Type 0} (host : Host E) (call : Call E S B) (s t : State E S B) (p : Ptr) (f : Future S)
      (rs : List Registration)
      → t.futures p ≡ s.futures p
      → t.conts ≡ s.conts
      → IsPending host call s p f rs
      → IsPending host call t p f rs
  IsPending-same host call s t p f rs futures conts o = record {
    ne_null = o.ne_null;
    holds = futures ∙ o.holds;
    incomplete = o.incomplete;
    unready = o.unready;
    unclosed = o.unclosed;
    stacked = o.stacked;
    queued = rw conts o.queued;
    distinct = o.distinct;
    no_waiter = o.no_waiter;
    attached = o.attached;
  }
