-- ===== src/Cancellation/Withdraw.antt =====
-- UfsrvCancellationTokenUnregister on the newest registration of a token that is not cancelled.
use ufsrvrxlib.Base.{ℕ, ◌-◌, ◌≡◌, refl, ◌≢◌, true, Option, none, some, List, [], ◌∷◌, arith}
use ufsrvrxlib.Cancellation.Heap.{Ptr, null, Node, Token, State, ok, Calls, write}
use ufsrvrxlib.Cancellation.Chain.{Entry, IsLive, Chain, Out, Distinct, Chain-write, IsOpen}
use ufsrvrxlib.Cancellation.Reclaim.{
  reclaimed, less_one, unlinked, advanced, unlink-only, unlink-first, collect, Collected,
}
use ufsrvrxlib.Cancellation.{unlink}

module _ {E : Type 0} (call : Calls E) where
  -- The state once a handle is given back, from the state `u` in which its node is out of the list.
  abbrev pub gone : State E → Ptr → Token → Ptr → Entry → Node → State E
  gone u t k h e n =
      reclaimed call (less_one call u e.at (unlinked call n)) e.at
        (record (unlinked call n) { refcount = n.refcount - 1 - 1 }) (advanced call k h)

  unfoldable pub collected :
      (fuel : ℕ) (s u : State E) (t prev : Ptr) (k : Token) (h : Ptr) (e : Entry) (n : Node)
      → e.at ≢ null
      → t ≢ null
      → s.nodes e.at ≡ some n
      → IsLive t prev e n
      → unlink call e.at s ≡ ok tt u
      → u.nodes e.at ≡ some (unlinked call n)
      → u.tokens t ≡ some (advanced call k h)
      → ((w : Ptr) → w ≢ t → u.tokens w ≡ s.tokens w)
      → u.env ≡ s.env
      → k.refcount ≢ 1
      → Collected call fuel s t k e true
  collected fuel s u t prev k h e n he ht en live run em et same env more = record {
    last = gone u t k h e n;
    run = collect call fuel s u t prev k h e n he ht en live run em et more;
    freed = ground arith;
    told = ground (arith, live.release_context, live.context, env);
    token = (h, ground (arith, live.token));
    others = λ w hw. ground (arith, live.token, same w hw);
  }

  -- The second registration stands first once the node at `p` is cut off and freed.
  Chain-rest :
      (s : State E) (t p : Ptr) (n m : Node) (x y : Option Node) (f : Entry) (es : List Entry)
      → n.prev ≡ null
      → n.next ≡ f.at
      → f.at ≢ null
      → s.nodes f.at ≡ some m
      → IsLive t p f m
      → Chain s.nodes t f.at m.next es
      → Out p (f ∷ es)
      → Distinct (f ∷ es)
      → Chain
          (write
            (write (write (write s.nodes n.next (some (record m { prev = n.prev }))) p x) p y)
            p
            none)
          t
          null
          n.next
          (f ∷ es)
  Chain-rest s t p n m x y f es back q ne at live rest out d =
      let out_next : Out n.next es = rw q d.0 in
      (
        q,
        ne,
        (
          record m { prev = n.prev },
          ground (arith, out.0),
          record {
            back = back;
            token = live.token;
            two = live.two;
            active = live.active;
            fn = live.fn;
            context = live.context;
            release_context = live.release_context;
          },
          Chain-write _ t f.at m.next p _ es out.1 (
              Chain-write _ t f.at m.next p _ es out.1 (
                Chain-write _ t f.at m.next p _ es out.1
                  (Chain-write s.nodes t f.at m.next n.next _ es out_next rest))),
        ),
      )

  -- What giving back a registration leaves behind, and those that stay.
  pub record Withdrawn (fuel : ℕ) (s : State E) (t : Ptr) (k : Token) (e : Entry) (es : List Entry)
      : Type 0 where
    pub collected : Collected call fuel s t k e true
    pub token' : Token
    pub opened : IsOpen collected.last t token' es

  pub unregister_newest :
      (fuel : ℕ) (s : State E) (t : Ptr) (k : Token) (e : Entry) (es : List Entry)
      → IsOpen s t k (e ∷ es)
      → k.refcount ≢ 1
      → Withdrawn fuel s t k e es
  unfolding collected
  unregister_newest fuel s t k e [] o more =
      let (q, ne, (n, at, live, rest)) = o.chain in
      let u : State E = record s {
        nodes = write s.nodes e.at (some (unlinked call n));
        tokens = write s.tokens n.token (some (advanced call k n.next));
      } in
      let held : s.tokens n.token ≡ some k = rw live.token o.holds in
      let run = unlink-only call s e.at n k ne (rw live.token o.ne_null) at held live.back rest in
      record {
        collected =
            collected fuel s u t null k n.next e n ne o.ne_null at live run (ground arith)
              (ground (arith, live.token)) (λ w hw. ground (arith, live.token)) refl more;
        token' = record (advanced call k n.next) { refcount = k.refcount - 1 };
        opened = record {
          ne_null = o.ne_null;
          holds = ground (arith, live.token);
          open_yet = o.open_yet;
          chain = rest;
          distinct = tt;
        };
      }
  unregister_newest fuel s t k e (f ∷ es) o more =
      let (q, ne, (n, at, live, (q', ne', (m, at', live', rest)))) = o.chain in
      let u : State E = record s {
        nodes =
            write (write s.nodes n.next (some (record m { prev = n.prev }))) e.at
              (some (unlinked call n));
        tokens = write s.tokens n.token (some (advanced call k n.next));
      } in
      let held : s.tokens n.token ≡ some k = rw live.token o.holds in
      let front : n.next ≢ null = ground arith in
      let apart : n.next ≢ e.at = ground (arith, o.distinct.0.0) in
      let run =
        unlink-first call s e.at n m k ne (rw live.token o.ne_null) at held live.back front apart
          (rw q' at') in
      record {
        collected =
            collected fuel s u t null k n.next e n ne o.ne_null at live run (ground arith)
              (ground (arith, live.token)) (λ w hw. ground (arith, live.token)) refl more;
        token' = record (advanced call k n.next) { refcount = k.refcount - 1 };
        opened = record {
          ne_null = o.ne_null;
          holds = ground (arith, live.token);
          open_yet = o.open_yet;
          chain =
              Chain-rest s t e.at n m _ _ f es live.back q' ne' at' live' rest o.distinct.0
                o.distinct.1;
          distinct = o.distinct.1;
        };
      }
