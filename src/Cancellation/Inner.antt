-- ===== src/Cancellation/Inner.antt =====
-- UfsrvCancellationTokenUnregister on any live registration of a token that is not cancelled.
use ufsrvrxlib.Base.{ℕ, ◌-◌, ◌≡◌, refl, ◌≢◌, Option, some, List, [], ◌∷◌, ◌++◌, arith}
use ufsrvrxlib.Cancellation.Heap.{Ptr, null, Node, Token, State, ok, Calls, write}
use ufsrvrxlib.Cancellation.Chain.{
  Entry, entry_at, registrations, Chain-Linked, Linked-Chain, IsLive, Chain, Out, Distinct,
  Chain-write, IsOpen,
}
use ufsrvrxlib.Cancellation.Reclaim.{unlinked}
use ufsrvrxlib.Cancellation.Withdraw.{gone, collected, Withdrawn, unregister_newest}
use ufsrvrxlib.Cancellation.{unlink}
use ufsrvrxlib.Base.Linked.{last_of, locate, Clear-same, Separate-middle, apart, before-same}

module _ {E : Type 0} (call : Calls E) where
  unlink-end :
      (s : State E) (p : Ptr) (n q : Node)
      → p ≢ null
      → s.nodes p ≡ some n
      → n.prev ≢ null
      → n.prev ≢ p
      → s.nodes n.prev ≡ some q
      → n.next ≡ null
      → unlink call p s
        ≡ ok tt (record s {
          nodes =
              write
                (write s.nodes n.prev (some (record q { next = n.next })))
                p
                (some (unlinked call n));
        })
  unfolding unlink
  unlink-end s p n q hp en back other eq front = ground arith

  unlink-inner :
      (s : State E) (p : Ptr) (n q m : Node)
      → p ≢ null
      → s.nodes p ≡ some n
      → n.prev ≢ null
      → n.prev ≢ p
      → s.nodes n.prev ≡ some q
      → n.next ≢ null
      → n.next ≢ p
      → n.next ≢ n.prev
      → s.nodes n.next ≡ some m
      → unlink call p s
        ≡ ok tt (record s {
          nodes =
              write
                (write
                  (write s.nodes n.prev (some (record q { next = n.next })))
                  n.next
                  (some (record m { prev = n.prev })))
                p
                (some (unlinked call n));
        })
  unfolding unlink
  unlink-inner s p n q m hp en back other eq front apart_ away em = ground arith

  -- The registrations behind the node at `p`, once the two beside it are joined and it is freed.
  Chain-behind :
      (s : State E) (t p prev next : Ptr) (m : Node) (w x y z : Option Node) (f : Entry)
      (es : List Entry)
      → next ≡ f.at
      → f.at ≢ null
      → IsLive t p f m
      → Chain s.nodes t f.at m.next es
      → Out prev (f ∷ es)
      → Out p (f ∷ es)
      → Distinct (f ∷ es)
      → Chain
          (write
            (write
              (write (write (write s.nodes prev w) next (some (record m { prev = prev }))) p x)
              p
              y)
            p
            z)
          t
          prev
          next
          (f ∷ es)
  Chain-behind s t p prev next m w x y z f es q ne live rest away out d =
      let joined = Chain-write s.nodes t f.at m.next prev w es away.1 rest in
      let marked = Chain-write _ t f.at m.next next _ es (rw q d.0) joined in
      let cut = Chain-write _ t f.at m.next p x es out.1 marked in
      let dropped = Chain-write _ t f.at m.next p y es out.1 cut in
      (
        q,
        ne,
        (
          record m { prev = prev },
          ground (arith, out.0),
          record {
            back = refl;
            token = live.token;
            two = live.two;
            active = live.active;
            fn = live.fn;
            context = live.context;
            release_context = live.release_context;
          },
          Chain-write _ t f.at m.next p z es out.1 dropped,
        ),
      )

  unregister_inner :
      (fuel : ℕ) (s : State E) (t : Ptr) (k : Token) (a : Entry) (pre : List Entry) (e : Entry)
      (post : List Entry)
      → IsOpen s t k (a ∷ (pre ++ e ∷ post))
      → k.refcount ≢ 1
      → Withdrawn call fuel s t k e (a ∷ (pre ++ post))
  unfolding collected
  unregister_inner fuel s t k a pre e [] o more =
      let l =
        locate (registrations t) s.nodes null k.head a pre e []
          (Chain-Linked s.nodes t null k.head (a ∷ (pre ++ e ∷ [])) o.chain) in
      let (ne, away, out, d) = apart entry_at a pre e [] o.distinct in
      let back : l.n.prev ≡ last_of entry_at a pre = l.live.back in
      let u : State E = record s {
        nodes =
            write (write s.nodes l.n.prev (some (record (l.q) { next = l.n.next }))) e.at
              (some (unlinked call l.n));
      } in
      let run =
        unlink-end s e.at l.n l.q l.ne_null.1 l.holds (rw back l.ne_null.0) (ground arith)
          (rw back l.prior) l.rest in
      let last = gone call u t k k.head e l.n in
      record {
        collected =
            collected call fuel s u t (last_of entry_at a pre) k k.head e l.n l.ne_null.1 o.ne_null
              l.holds l.live run (ground arith) o.holds (λ w hw. refl) refl more;
        token' = record k { refcount = k.refcount - 1 };
        opened = record {
          ne_null = o.ne_null;
          holds = ground (arith, l.live.token);
          open_yet = o.open_yet;
          chain = Linked-Chain last.nodes t null k.head (a ∷ (pre ++ [])) (
              l.relink last.nodes l.n.next (ground arith)
                (before-same entry_at s.nodes last.nodes a pre e [] o.distinct
                  (λ x nl nx nf. ground arith))
                l.rest);
          distinct = Separate-middle entry_at (a ∷ pre) e [] o.distinct;
        };
      }
  unregister_inner fuel s t k a pre e (f ∷ post) o more =
      let l =
        locate (registrations t) s.nodes null k.head a pre e (f ∷ post)
          (Chain-Linked s.nodes t null k.head (a ∷ (pre ++ e ∷ f ∷ post)) o.chain) in
      let (ne, away, out, d) = apart entry_at a pre e (f ∷ post) o.distinct in
      let back : l.n.prev ≡ last_of entry_at a pre = l.live.back in
      let (qf, nef, (m, atf, livef, after)) = l.rest in
      let rest = Linked-Chain s.nodes t f.at m.next post after in
      let u : State E = record s {
        nodes =
            write
              (write (write s.nodes l.n.prev (some (record (l.q) { next = l.n.next }))) l.n.next
                (some (record m { prev = l.n.prev })))
              e.at (some (unlinked call l.n));
      } in
      let run =
        unlink-inner s e.at l.n l.q m l.ne_null.1 l.holds (rw back l.ne_null.0) (ground arith)
          (rw back l.prior) (rw qf nef) (ground (arith, out.0)) (ground (arith, away.0))
          (rw qf atf) in
      let last = gone call u t k k.head e l.n in
      record {
        collected =
            collected call fuel s u t (last_of entry_at a pre) k k.head e l.n l.ne_null.1 o.ne_null
              l.holds l.live run (ground arith) o.holds (λ w hw. refl) refl more;
        token' = record k { refcount = k.refcount - 1 };
        opened = record {
          ne_null = o.ne_null;
          holds = ground (arith, l.live.token);
          open_yet = o.open_yet;
          chain = Linked-Chain last.nodes t null k.head (a ∷ (pre ++ f ∷ post)) (
              l.relink last.nodes l.n.next (ground (arith, away.0))
                (before-same entry_at s.nodes last.nodes a pre e (f ∷ post) o.distinct
                  (λ x nl nx nf. ground (arith, nf.0)))
                (Chain-Linked last.nodes t (last_of entry_at a pre) l.n.next (f ∷ post) (
                  rw (← back) (
                    Chain-behind s t e.at l.n.prev l.n.next m _ _ _ _ f post qf nef livef rest
                      (Clear-same entry_at (f ∷ post) back away) out d))));
          distinct = Separate-middle entry_at (a ∷ pre) e (f ∷ post) o.distinct;
        };
      }

  -- `UfsrvCancellationTokenUnregister` on the handle of any live registration of a token that is not
  -- cancelled, while another reference to the token is left: it returns true, frees the node, calls the
  -- registration's release hook exactly once and neither its callback nor any other, drops one reference
  -- of the token, touches no other token, and leaves the token's list well formed with exactly the other
  -- registrations, Chain-Linked, Linked-Chain, in their order.
  pub unregister_live :
      (fuel : ℕ) (s : State E) (t : Ptr) (k : Token) (pre : List Entry) (e : Entry)
      (post : List Entry)
      → IsOpen s t k (pre ++ e ∷ post)
      → k.refcount ≢ 1
      → Withdrawn call fuel s t k e (pre ++ post)
  unregister_live fuel s t k [] e post o more = unregister_newest call fuel s t k e post o more
  unregister_live fuel s t k (a ∷ pre) e post o more =
      unregister_inner fuel s t k a pre e post o more
