-- ===== src/Cancellation/Cancel.antt =====
-- UfsrvCancellationTokenCancel, its two loops one after the other.
use ufsrvrxlib.Base.Memory.{not_null, same_ptr}
use ufsrvrxlib.Base.{
  ℕ, zero, suc, ◌-◌, ◌<◌, ◌≡◌, refl, ◌≢◌, ◌∙◌, true, false, Option, some, List, [], ◌∷◌, arith, All,
  length, ◌==◌,
}
use ufsrvrxlib.Cancellation.Heap.{Ptr, null, Node, Token, State, ok, Calls, write}
use ufsrvrxlib.Cancellation.Chain.{Entry, Chain, Out, Distinct, Chain-write, IsOpen}
use ufsrvrxlib.Cancellation.{detach, dispatch, cancel}

-- A node that the first loop has passed.
record IsDetached (t : Ptr) (e : Entry) (n : Node) : Type 0 where
  token : n.token ≡ t
  two : n.refcount ≡ 2
  inactive : n.active ≡ false
  claimed : n.claimed ≡ true
  back : n.prev ≡ null
  fn : n.fn ≡ e.fn
  context : n.context ≡ e.context
  release_context : n.release_context ≡ e.release_context

-- A node whose callback has run: only its handle refers to it.
pub record IsSpent (t : Ptr) (e : Entry) (n : Node) : Type 0 where
  pub token : n.token ≡ t
  pub one : n.refcount ≡ 1
  pub inactive : n.active ≡ false
  pub claimed : n.claimed ≡ true
  pub unlinked : (n.prev ≡ null) × (n.next ≡ null)
  pub context : n.context ≡ e.context
  pub release_context : n.release_context ≡ e.release_context

abbrev DetachedChain : (Ptr → Option Node) → (t p : Ptr) → List Entry → Type 0
DetachedChain h t p [] = p ≡ null
DetachedChain h t p (e ∷ es) =
    (p ≡ e.at)
    × (e.at ≢ null)
    × ((n : Node) × (h e.at ≡ some n) × IsDetached t e n × DetachedChain h t n.next es)

abbrev pub AllSpent : (Ptr → Option Node) → Ptr → List Entry → Type 0
AllSpent h t es = All (λ e. (n : Node) × (h e.at ≡ some n) × IsSpent t e n) es

DetachedChain-frame :
    (h g : Ptr → Option Node) (t p : Ptr) (es : List Entry)
    → ((e : Entry) → g e.at ≡ h e.at)
    → DetachedChain h t p es
    → DetachedChain g t p es
DetachedChain-frame h g t p [] same ch = ch
DetachedChain-frame h g t p (e ∷ es) same (q, ne, (n, at, d, rest)) =
    (q, ne, (n, same e ∙ at, d, DetachedChain-frame h g t n.next es same rest))

DetachedChain-write :
    (h : Ptr → Option Node) (t p a : Ptr) (c : Option Node) (es : List Entry)
    → Out a es
    → DetachedChain h t p es
    → DetachedChain (write h a c) t p es
DetachedChain-write h t p a c [] out ch = ch
DetachedChain-write h t p a c (e ∷ es) out (q, ne, (n, at, d, rest)) =
    (q, ne, (n, ground arith, d, DetachedChain-write h t n.next a c es out.1 rest))

module _ {E : Type 0} (call : Calls E) where
  -- The callbacks of these registrations, called in order.
  abbrev pub call_all : List Entry → E → E
  call_all [] env = env
  call_all (e ∷ es) env = call_all es (call e.fn e.context env)

  abbrev passed : Node → Node
  passed n = record n { active = false; claimed = true; prev = null }

  abbrev put : State E → Ptr → Node → State E
  put s p n = record s { nodes = write s.nodes p (some n) }

  detach-step :
      (k : ℕ) (s : State E) (p : Ptr) (n : Node)
      → p ≢ null
      → s.nodes p ≡ some n
      → detach call (suc k) p s ≡ detach call k n.next (put s p (passed n))
  unfolding detach
  detach-step k s p n h e = simp (not_null p h, e)

  -- What the first loop makes of a list.
  record Detached (k : ℕ) (s : State E) (t p : Ptr) (es : List Entry) : Type 0 where
    last : State E
    run : detach call k p s ≡ ok tt last
    chain : DetachedChain last.nodes t p es
    elsewhere : (a : Ptr) → Out a es → last.nodes a ≡ s.nodes a
    tokens : last.tokens ≡ s.tokens
    env : last.env ≡ s.env

  detach-Detached :
      (k : ℕ) (s : State E) (t prev p : Ptr) (es : List Entry)
      → Chain s.nodes t prev p es
      → Distinct es
      → length es < k
      → Detached k s t p es
  unfolding detach
  detach-Detached zero s t prev p es ch d h = absurd (omega arith)
  detach-Detached (suc k) s t prev p [] ch d h = record {
    last = s;
    run = simp ch;
    chain = ch;
    elsewhere = λ a o. refl;
    tokens = refl;
    env = refl;
  }
  detach-Detached (suc k) s t prev p (e ∷ es) (q, ne, (n, at, live, rest)) d h =
      let p_ne : p ≢ null = ground arith in
      let out : Out p es = rw q d.0 in
      let r =
        detach-Detached k (put s p (passed n)) t e.at n.next es
          (Chain-write s.nodes t e.at n.next p (some (passed n)) es out rest) d.1 (omega arith) in
      record {
        last = r.last;
        run = detach-step k s p n p_ne (rw q at) ∙ r.run;
        chain = (
          q,
          ne,
          (
            passed n,
            r.elsewhere e.at d.0 ∙ ground arith,
            record {
              token = live.token;
              two = live.two;
              inactive = refl;
              claimed = refl;
              back = refl;
              fn = live.fn;
              context = live.context;
              release_context = live.release_context;
            },
            r.chain,
          ),
        );
        elsewhere = λ a o. r.elsewhere a o.1 ∙ ground (arith, o.0);
        tokens = r.tokens;
        env = r.env;
      }

  abbrev spent : Node → Node
  spent n = record n { next = null; refcount = n.refcount - 1 }

  -- The state after one round of the second loop.
  abbrev dispatched : State E → Ptr → Node → State E
  dispatched s p n = record s {
    nodes = write (write s.nodes p (some (record n { next = null }))) p (some (spent n));
    env = call n.fn n.context s.env;
  }

  dispatch-step :
      (k : ℕ) (s : State E) (p : Ptr) (n : Node)
      → p ≢ null
      → s.nodes p ≡ some n
      → n.refcount ≡ 2
      → dispatch call (suc k) p s ≡ dispatch call k n.next (dispatched s p n)
  unfolding dispatch
  dispatch-step k s p n h e two =
      let not_last : (n.refcount == 1) ≡ false = ground arith in
      simp (not_null p h, e, same_ptr p, not_last)

  -- What the second loop makes of a list.
  record Dispatched (k : ℕ) (s : State E) (t p : Ptr) (es : List Entry) : Type 0 where
    last : State E
    run : dispatch call k p s ≡ ok tt last
    all_spent : AllSpent last.nodes t es
    elsewhere : (a : Ptr) → Out a es → last.nodes a ≡ s.nodes a
    tokens : last.tokens ≡ s.tokens
    env : last.env ≡ call_all es s.env

  dispatch-Dispatched :
      (k : ℕ) (s : State E) (t p : Ptr) (es : List Entry)
      → DetachedChain s.nodes t p es
      → Distinct es
      → length es < k
      → Dispatched k s t p es
  unfolding dispatch
  dispatch-Dispatched zero s t p es ch d h = absurd (omega arith)
  dispatch-Dispatched (suc k) s t p [] ch d h = record {
    last = s;
    run = simp ch;
    all_spent = tt;
    elsewhere = λ a o. refl;
    tokens = refl;
    env = refl;
  }
  dispatch-Dispatched (suc k) s t p (e ∷ es) (q, ne, (n, at, live, rest)) d h =
      let p_ne : p ≢ null = ground arith in
      let out : Out p es = rw q d.0 in
      let r =
        dispatch-Dispatched k (dispatched s p n) t n.next es
          (DetachedChain-write _ t n.next p (some (spent n)) es out
            (DetachedChain-write s.nodes t n.next p (some (record n { next = null })) es out rest))
          d.1 (omega arith) in
      record {
        last = r.last;
        run = dispatch-step k s p n p_ne (rw q at) live.two ∙ r.run;
        all_spent = (
          (
            spent n,
            r.elsewhere e.at d.0 ∙ ground arith,
            record {
              token = live.token;
              one = omega (arith, live.two);
              inactive = live.inactive;
              claimed = live.claimed;
              unlinked = (live.back, refl);
              context = live.context;
              release_context = live.release_context;
            },
          ),
          r.all_spent,
        );
        elsewhere = λ a o. r.elsewhere a o.1 ∙ ground (arith, o.0);
        tokens = r.tokens;
        env = r.env ∙ ground (arith, live.fn, live.context);
      }

  -- What `UfsrvCancellationTokenCancel` leaves behind.
  pub record Cancelled (fuel : ℕ) (s : State E) (t : Ptr) (k : Token) (es : List Entry)
      : Type 0 where
    pub last : State E
    pub run : cancel call fuel t s ≡ ok tt last
    pub marked : last.tokens t ≡ some (record k { is_cancelled = true; head = null })
    pub called : last.env ≡ call_all es s.env
    pub all_spent : AllSpent last.nodes t es
    pub elsewhere : (a : Ptr) → Out a es → last.nodes a ≡ s.nodes a
    pub others : (u : Ptr) → u ≢ t → last.tokens u ≡ s.tokens u
    pub again : (more : ℕ) → cancel call more t last ≡ ok tt last

  abbrev closing : State E → Ptr → Token → State E
  closing s t k = record s {
    tokens = write s.tokens t (some (record k { is_cancelled = true; head = null }));
  }

  cancel-run :
      (fuel : ℕ) (s m l : State E) (t : Ptr) (k : Token)
      → t ≢ null
      → s.tokens t ≡ some k
      → k.is_cancelled ≡ false
      → detach call fuel k.head (closing s t k) ≡ ok tt m
      → dispatch call fuel k.head m ≡ ok tt l
      → cancel call fuel t s ≡ ok tt l
  unfolding cancel
  cancel-run fuel s m l t k h e open_yet d r = simp (not_null t h, e, open_yet, d, r)

  cancel-again :
      (more : ℕ) (s : State E) (t : Ptr) (k : Token)
      → t ≢ null
      → s.tokens t ≡ some k
      → k.is_cancelled ≡ true
      → cancel call more t s ≡ ok tt s
  unfolding cancel
  cancel-again more s t k h e yet = simp (not_null t h, e, yet)

  -- `UfsrvCancellationTokenCancel` on a token that is not cancelled ends, with no access to memory
  -- that is not allocated. It marks the token and empties its list; it has called each registered
  -- callback exactly once, the newest first; every node of the list is left inactive, claimed and
  -- with its handle's reference alone; no other node and no other token is touched; and a second
  -- Cancel changes nothing.
  pub cancel-Cancelled :
      (fuel : ℕ) (s : State E) (t : Ptr) (k : Token) (es : List Entry)
      → IsOpen s t k es
      → length es < fuel
      → Cancelled fuel s t k es
  cancel-Cancelled fuel s t k es o h = record {
    last = r.last;
    run = cancel-run fuel s d.last r.last t k o.ne_null o.holds o.open_yet d.run r.run;
    marked = marked;
    called = ground (arith, r.env, d.env);
    all_spent = r.all_spent;
    elsewhere = λ a out. r.elsewhere a out ∙ d.elsewhere a out;
    others = λ u hu. others u hu;
    again = λ more. cancel-again more r.last t _ o.ne_null marked refl;
  }
    where
      d : Detached fuel (closing s t k) t k.head es
      d = detach-Detached fuel (closing s t k) t null k.head es o.chain o.distinct h

      r : Dispatched fuel d.last t k.head es
      r = dispatch-Dispatched fuel d.last t k.head es d.chain o.distinct h

      tokens : r.last.tokens ≡ (closing s t k).tokens
      tokens = r.tokens ∙ d.tokens

      marked : r.last.tokens t ≡ some (record k { is_cancelled = true; head = null })
      marked = rw tokens (ground arith)

      others : (u : Ptr) → u ≢ t → r.last.tokens u ≡ s.tokens u
      others u hu = rw tokens (ground arith)
