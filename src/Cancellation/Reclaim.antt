-- ===== src/Cancellation/Reclaim.antt =====
-- UfsrvCancellationTokenUnregister: who gives a node back, and what its context is told.
use ufsrvrxlib.Base.Memory.{not_null}
use ufsrvrxlib.Base.{
  ℕ, ◌-◌, ◌≡◌, refl, ap, ◌≢◌, ◌∙◌, Bool, true, false, Option, none, some, arith, ◌==◌,
  if◌then◌else◌,
}
use ufsrvrxlib.Cancellation.Heap.{Ptr, null, Node, Token, State, ok, pure, Calls, write}
use ufsrvrxlib.Cancellation.Chain.{Entry, IsLive}
use ufsrvrxlib.Cancellation.Cancel.{IsSpent}
use ufsrvrxlib.Cancellation.{call_release, unregister, node_free, unlink}

module _ {E : Type 0} (call : Calls E) where
  -- `release_context`, where there is one, called on the context.
  abbrev pub released : Option ℕ → ℕ → E → E
  released none context env = env
  released (some f) context env = call f context env

  call_release-released :
      (r : Option ℕ) (c : ℕ) (s : State E)
      → call_release call r c s ≡ ok tt (record s { env = released r c s.env })
  call_release-released none c s = refl
  call_release-released (some f) c s = refl

  -- A token of which a reference goes that is not the last.
  abbrev pub dropped : (Ptr → Option Token) → Ptr → Token → Ptr → Option Token
  dropped h t k = write h t (some (record k { refcount = k.refcount - 1 }))

  node_free-kept :
      (fuel : ℕ) (s : State E) (p : Ptr) (n : Node) (k : Token)
      → p ≢ null
      → n.token ≢ null
      → s.nodes p ≡ some n
      → s.tokens n.token ≡ some k
      → k.refcount ≢ 1
      → node_free call fuel p s
        ≡ ok tt (record s {
          nodes = write s.nodes p none;
          tokens = dropped s.tokens n.token k;
          env = released n.release_context n.context s.env;
        })
  unfolding node_free
  node_free-kept fuel s p n k hp ht en et more =
      let not_last : (k.refcount == 1) ≡ false = ground arith in
      simp (not_null p hp, en, call_release-released, not_null n.token ht, et, not_last)

  -- A node is freed, its context released, and its token's reference dropped.
  abbrev pub reclaimed : State E → Ptr → Node → Token → State E
  reclaimed s p n k = record s {
    nodes = write s.nodes p none;
    tokens = dropped s.tokens n.token k;
    env = released n.release_context n.context s.env;
  }

  abbrev pub less_one : State E → Ptr → Node → State E
  less_one s p m = record s {
    nodes = write s.nodes p (some (record m { refcount = m.refcount - 1 }));
  }

  unregister-run :
      (fuel : ℕ) (s u l : State E) (p : Ptr) (n m : Node)
      → p ≢ null
      → s.nodes p ≡ some n
      → (if n.active then unlink call p else pure tt) s ≡ ok tt u
      → u.nodes p ≡ some m
      → m.refcount ≡ 1
      → node_free call fuel p (less_one u p m) ≡ ok tt l
      → unregister call fuel p s ≡ ok n.active l
  unfolding unregister
  unregister-run fuel s u l p n m hp en first em one run =
      let last : (m.refcount == 1) ≡ true = ground arith in
      simp (not_null p hp, en, first, em, last, run)

  pub unlink-only :
      (s : State E) (p : Ptr) (n : Node) (k : Token)
      → p ≢ null
      → n.token ≢ null
      → s.nodes p ≡ some n
      → s.tokens n.token ≡ some k
      → n.prev ≡ null
      → n.next ≡ null
      → unlink call p s
        ≡ ok tt (record s {
          nodes = write s.nodes p (
              some (record n {
                active = false;
                claimed = true;
                prev = null;
                next = null;
                refcount = n.refcount - 1;
              }));
          tokens = write s.tokens n.token (some (record k { head = n.next }));
        })
  unfolding unlink
  unlink-only s p n k hp ht en et back front = ground arith

  pub unlink-first :
      (s : State E) (p : Ptr) (n q : Node) (k : Token)
      → p ≢ null
      → n.token ≢ null
      → s.nodes p ≡ some n
      → s.tokens n.token ≡ some k
      → n.prev ≡ null
      → n.next ≢ null
      → n.next ≢ p
      → s.nodes n.next ≡ some q
      → unlink call p s
        ≡ ok tt (record s {
          nodes = write (write s.nodes n.next (some (record q { prev = n.prev }))) p (
              some (record n {
                active = false;
                claimed = true;
                prev = null;
                next = null;
                refcount = n.refcount - 1;
              }));
          tokens = write s.tokens n.token (some (record k { head = n.next }));
        })
  unfolding unlink
  unlink-first s p n q k hp ht en et back front other eq = ground arith

  -- What giving a handle back comes to: the node is freed, its context released once.
  pub record Collected (fuel : ℕ) (s : State E) (t : Ptr) (k : Token) (e : Entry) (won : Bool)
      : Type 0 where
    pub last : State E
    pub run : unregister call fuel e.at s ≡ ok won last
    pub freed : last.nodes e.at ≡ none
    pub told : last.env ≡ released e.release_context e.context s.env
    pub token :
        (h : Ptr) × (last.tokens t ≡ some (record k { refcount = k.refcount - 1; head = h }))
    pub others : (u : Ptr) → u ≢ t → last.tokens u ≡ s.tokens u

  -- `UfsrvCancellationTokenUnregister` on the handle of a registration whose callback Cancel has run,
  -- while another reference to the token is left: it returns false, frees the node, calls the
  -- registration's release hook exactly once and no other callback, drops one reference of
  -- the token, and touches no other token.
  pub unregister_spent :
      (fuel : ℕ) (s : State E) (t : Ptr) (k : Token) (e : Entry) (n : Node)
      → e.at ≢ null
      → t ≢ null
      → s.nodes e.at ≡ some n
      → IsSpent t e n
      → s.tokens t ≡ some k
      → k.refcount ≢ 1
      → Collected fuel s t k e false
  unregister_spent fuel s t k e n he ht en sp et more = record {
    last = l;
    run =
        unregister-run fuel s s l e.at n n he en (simp sp.inactive) en sp.one (
          node_free-kept fuel _ e.at (record n { refcount = n.refcount - 1 }) k he (rw sp.token ht)
            (ground arith) (rw sp.token et) more)
        ∙ ap (λ b. ok b l) sp.inactive;
    freed = ground arith;
    told = ground (arith, sp.release_context, sp.context);
    token = (k.head, ground (arith, sp.token));
    others = λ u hu. ground (arith, sp.token);
  }
    where
      l : State E
      l = reclaimed (less_one s e.at n) e.at (record n { refcount = n.refcount - 1 }) k

  -- The node that `unlink` leaves, and the token.
  abbrev pub unlinked : Node → Node
  unlinked n = record n {
    active = false;
    claimed = true;
    prev = null;
    next = null;
    refcount = n.refcount - 1;
  }

  abbrev pub advanced : Token → Ptr → Token
  advanced k h = record k { head = h }

  pub collect :
      (fuel : ℕ) (s u : State E) (t prev : Ptr) (k : Token) (h : Ptr) (e : Entry) (n : Node)
      → e.at ≢ null
      → t ≢ null
      → s.nodes e.at ≡ some n
      → IsLive t prev e n
      → unlink call e.at s ≡ ok tt u
      → u.nodes e.at ≡ some (unlinked n)
      → u.tokens t ≡ some (advanced k h)
      → k.refcount ≢ 1
      → unregister call fuel e.at s
        ≡ ok true (
            reclaimed
              (less_one u e.at (unlinked n))
              e.at
              (record (unlinked n) { refcount = n.refcount - 1 - 1 })
              (advanced k h))
  collect fuel s u t prev k h e n he ht en live run em et more =
      unregister-run fuel s u _ e.at n (unlinked n) he en (simp (live.active, run)) em
        (omega (arith, live.two))
        (node_free-kept fuel _ e.at (record (unlinked n) { refcount = n.refcount - 1 - 1 })
          (advanced k h) he (rw live.token ht) (ground arith) (rw live.token et) more)
      ∙ ap
          (λ b. ok b (
            reclaimed (less_one u e.at (unlinked n)) e.at
              (record (unlinked n) { refcount = n.refcount - 1 - 1 }) (advanced k h)))
          live.active
