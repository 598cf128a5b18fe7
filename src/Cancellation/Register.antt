-- ===== src/Cancellation/Register.antt =====
-- UfsrvCancellationTokenRegisterEx.
use ufsrvrxlib.Base.Memory.{not_null, same_ptr}
use ufsrvrxlib.Base.{◌+◌, ◌≡◌, refl, sym, ◌≢◌, true, false, none, some, List, [], ◌∷◌, arith}
use ufsrvrxlib.Cancellation.Heap.{Ptr, null, Node, Token, State, ok, Calls, write}
use ufsrvrxlib.Cancellation.Chain.{Entry, IsLive, Chain, Out, Chain-write, unused-Out, IsOpen}
use ufsrvrxlib.Cancellation.{link, register_ex}

module _ {E : Type 0} (call : Calls E) where
  abbrev blank : Ptr → Entry → Node
  blank t e = record {
    prev = null;
    next = null;
    token = t;
    refcount = 2;
    active = false;
    claimed = false;
    fn = e.fn;
    context = e.context;
    release_context = e.release_context;
  }

  link-empty :
      (s : State E) (t cb : Ptr) (k : Token) (n : Node)
      → t ≢ null
      → cb ≢ null
      → s.tokens t ≡ some k
      → s.nodes cb ≡ some n
      → k.head ≡ null
      → link call t cb s
        ≡ ok tt (record s {
          nodes =
              write
                (write s.nodes cb (some (record n { next = null })))
                cb
                (some (record n { next = null; active = true }));
          tokens = write s.tokens t (some (record k { head = cb }));
        })
  unfolding link
  link-empty s t cb k n ht hc et en eh = ground arith

  link-cons :
      (s : State E) (t cb : Ptr) (k : Token) (n old : Node)
      → t ≢ null
      → cb ≢ null
      → k.head ≢ cb
      → k.head ≢ null
      → s.tokens t ≡ some k
      → s.nodes cb ≡ some n
      → s.nodes k.head ≡ some old
      → link call t cb s
        ≡ ok tt (record s {
          nodes =
              write
                (write
                  (write s.nodes cb (some (record n { next = k.head })))
                  k.head
                  (some (record old { prev = cb })))
                cb
                (some (record n { next = k.head; active = true }));
          tokens = write s.tokens t (some (record k { head = cb }));
        })
  unfolding link
  link-cons s t cb k n old ht hc hn hh et en eo = ground arith

  -- The state in which `RegisterEx` tests `is_cancelled`.
  abbrev entered : State E → Ptr → Token → Entry → State E
  entered s t k e = record s {
    nodes = write s.nodes e.at (some (blank t e));
    tokens = write s.tokens t (some (record k { refcount = k.refcount + 1 }));
  }

  register_ex-open :
      (s s' : State E) (t : Ptr) (k : Token) (e : Entry)
      → t ≢ null
      → e.at ≢ null
      → s.tokens t ≡ some k
      → k.is_cancelled ≡ false
      → link call t e.at (entered s t k e) ≡ ok tt s'
      → register_ex call e.at t (some e.fn) e.context e.release_context s ≡ ok e.at s'
  unfolding register_ex
  register_ex-open s s' t k e ht he et open_yet run =
      let ran = simp open_yet at run in
      simp (not_null t ht, not_null e.at he, et, same_ptr t, open_yet, ran)

  -- What a registration promises of the state it leaves.
  pub record Registered (s s' : State E) (t : Ptr) (k : Token) (e : Entry) (es : List Entry)
      : Type 0 where
    pub token' : Token
    pub run : register_ex call e.at t (some e.fn) e.context e.release_context s ≡ ok e.at s'
    pub opened : IsOpen s' t token' (e ∷ es)
    pub retained : token'.refcount ≡ k.refcount + 1
    pub quiet : s'.env ≡ s.env
    pub elsewhere : (u : Ptr) → u ≢ t → s'.tokens u ≡ s.tokens u

  abbrev with_first : State E → Ptr → Token → Entry → State E
  with_first s t k e = record s {
    nodes =
        write (write (write s.nodes e.at (some (blank t e))) e.at (some (blank t e))) e.at
          (some (record (blank t e) { active = true }));
    tokens =
        write (write s.tokens t (some (record k { refcount = k.refcount + 1 }))) t
          (some (record k { refcount = k.refcount + 1; head = e.at }));
  }

  register-empty :
      (s : State E) (t : Ptr) (k : Token) (e : Entry)
      → IsOpen s t k []
      → e.at ≢ null
      → Registered s (with_first s t k e) t k e []
  register-empty s t k e o he = record {
    token' = record k { refcount = k.refcount + 1; head = e.at };
    run = register_ex-open s _ t k e o.ne_null he o.holds o.open_yet (
        link-empty (entered s t k e) t e.at (record k { refcount = k.refcount + 1 }) (blank t e)
          o.ne_null he (ground arith) (ground arith) o.chain);
    opened = record {
      ne_null = o.ne_null;
      holds = ground arith;
      open_yet = o.open_yet;
      chain = (
        refl,
        he,
        (
          record (blank t e) { active = true },
          ground arith,
          record {
            back = refl;
            token = refl;
            two = refl;
            active = refl;
            fn = refl;
            context = refl;
            release_context = refl;
          },
          refl,
        ),
      );
      distinct = (tt, tt);
    };
    retained = refl;
    quiet = refl;
    elsewhere = λ u hu. ground arith;
  }

  abbrev with_more : State E → Ptr → Token → Entry → Node → State E
  with_more s t k e old = record s {
    nodes =
        write
          (write
            (write (write s.nodes e.at (some (blank t e))) e.at
              (some (record (blank t e) { next = k.head })))
            k.head (some (record old { prev = e.at })))
          e.at (some (record (blank t e) { next = k.head; active = true }));
    tokens =
        write (write s.tokens t (some (record k { refcount = k.refcount + 1 }))) t
          (some (record k { refcount = k.refcount + 1; head = e.at }));
  }

  register-cons :
      (s : State E) (t : Ptr) (k : Token) (e d : Entry) (es : List Entry) (old : Node)
      → IsOpen s t k (d ∷ es)
      → e.at ≢ null
      → s.nodes e.at ≡ none
      → s.nodes d.at ≡ some old
      → IsLive t null d old
      → Chain s.nodes t d.at old.next es
      → Registered s (with_more s t k e old) t k e (d ∷ es)
  register-cons s t k e d es old o he unused at live rest = record {
    token' = record k { refcount = k.refcount + 1; head = e.at };
    run = register_ex-open s _ t k e o.ne_null he o.holds o.open_yet (
        link-cons (entered s t k e) t e.at (record k { refcount = k.refcount + 1 }) (blank t e) old
          o.ne_null he (ground arith) (ground arith) (ground arith) (ground arith) (ground arith));
    opened = record {
      ne_null = o.ne_null;
      holds = ground arith;
      open_yet = o.open_yet;
      chain = (
        refl,
        he,
        (
          record (blank t e) { next = k.head; active = true },
          ground arith,
          record {
            back = refl;
            token = refl;
            two = refl;
            active = refl;
            fn = refl;
            context = refl;
            release_context = refl;
          },
          (
            o.chain.0,
            o.chain.1,
            (
              record old { prev = e.at },
              ground arith,
              record {
                back = refl;
                token = live.token;
                two = live.two;
                active = live.active;
                fn = live.fn;
                context = live.context;
                release_context = live.release_context;
              },
              chain_rest,
            ),
          ),
        ),
      );
      distinct = (((λ i. different (sym i)), out), o.distinct);
    };
    retained = refl;
    quiet = refl;
    elsewhere = λ u hu. ground arith;
  }
    where
      out : Out e.at es
      out = unused-Out s.nodes t d.at old.next e.at es rest unused

      different : e.at ≢ d.at
      different = ground arith

      out_head : Out k.head es
      out_head = rw o.chain.0 o.distinct.0

      chain_rest : Chain (with_more s t k e old).nodes t d.at old.next es
      chain_rest = Chain-write _ t d.at old.next e.at _ es out (
          Chain-write _ t d.at old.next k.head _ es out_head (
            Chain-write _ t d.at old.next e.at _ es out
              (Chain-write _ t d.at old.next e.at _ es out rest)))

  -- `UfsrvCancellationTokenRegisterEx` with a callback, on a token that is not cancelled and with a new
  -- node: it returns the node, which stands first in the token's list before all that were registered,
  -- each of them as it was and linked both ways; the token has one reference more; no callback runs,
  -- and no other token is touched.
  pub register-Registered :
      (s : State E) (t : Ptr) (k : Token) (e : Entry) (es : List Entry)
      → IsOpen s t k es
      → e.at ≢ null
      → s.nodes e.at ≡ none
      → (s' : State E) × Registered s s' t k e es
  register-Registered s t k e [] o he unused = (_, register-empty s t k e o he)
  register-Registered s t k e (d ∷ es) o he unused =
      let (old, at, live, rest) = o.chain.2 in
      (_, register-cons s t k e d es old o he unused at live rest)
