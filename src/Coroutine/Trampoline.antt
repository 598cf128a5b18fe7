-- ===== src/Coroutine/Trampoline.antt =====
-- sCoroutineTrampoline and sUnstartedUnlink, on any coroutine of the list of those that have not started.
use ufsrvrxlib.Base.{◌≡◌, refl, sym, ◌≢◌, Option, none, some, List, [], ◌∷◌, ◌++◌, arith}
use ufsrvrxlib.Base.Linked.{
  last_of, locate, Clear-last, Clear-middle, Clear-same, Separate-middle, apart, before-same,
}
use ufsrvrxlib.Coroutine.Heap.{Ptr, null, Start, State, Aco, ok, write}
use ufsrvrxlib.Coroutine.Roster.{
  Created, IsUnstarted, Roster, unstarted, Roster-Linked, Linked-Roster, created_at, Out, Distinct,
  Roster-write,
}
use ufsrvrxlib.Coroutine.{unstarted_unlink, trampoline_start}

module _ {E : Type 0} (aco : Aco E) where
  abbrev bare : Start → Start
  bare n = record n { prev = null; next = null }

  -- The state once the node `n` at `p` is unlinked and freed: what the head is, and the nodes that the
  -- unlinking left in `h`.
  abbrev begun : State E → (p head : Ptr) → Start → (Ptr → Option Start) → State E
  begun s p head n h = record s {
    unstarted_head = head;
    starts = write (write h p (some (bare n))) p none;
    env = aco.set_arg n.arg s.env;
  }

  start-only :
      (s : State E) (p : Ptr) (n : Start)
      → p ≢ null
      → s.starts p ≡ some n
      → n.prev ≡ null
      → n.next ≡ null
      → trampoline_start aco p s ≡ ok n.entry (begun s p n.next n s.starts)
  unfolding trampoline_start unstarted_unlink
  start-only s p n hp at back front = ground arith

  start-first :
      (s : State E) (p : Ptr) (n m : Start)
      → p ≢ null
      → s.starts p ≡ some n
      → n.prev ≡ null
      → n.next ≢ null
      → n.next ≢ p
      → s.starts n.next ≡ some m
      → trampoline_start aco p s
        ≡ ok n.entry
            (begun s p n.next n (write s.starts n.next (some (record m { prev = n.prev }))))
  unfolding trampoline_start unstarted_unlink
  start-first s p n m hp at back front other em = ground arith

  start-last :
      (s : State E) (p : Ptr) (n q : Start)
      → p ≢ null
      → s.starts p ≡ some n
      → n.prev ≢ null
      → n.prev ≢ p
      → s.starts n.prev ≡ some q
      → n.next ≡ null
      → trampoline_start aco p s
        ≡ ok n.entry (
            begun s p s.unstarted_head n
              (write s.starts n.prev (some (record q { next = n.next }))))
  unfolding trampoline_start unstarted_unlink
  start-last s p n q hp at back other eq front = ground arith

  start-inner :
      (s : State E) (p : Ptr) (n q m : Start)
      → p ≢ null
      → s.starts p ≡ some n
      → n.prev ≢ null
      → n.prev ≢ p
      → s.starts n.prev ≡ some q
      → n.next ≢ null
      → n.next ≢ p
      → n.next ≢ n.prev
      → s.starts n.next ≡ some m
      → trampoline_start aco p s
        ≡ ok n.entry (
            begun s p s.unstarted_head n (
              write
                (write s.starts n.prev (some (record q { next = n.next })))
                n.next
                (some (record m { prev = n.prev }))))
  unfolding trampoline_start unstarted_unlink
  start-inner s p n q m hp at back other eq front apart_ away em = ground arith

  -- The list behind the node at `p`, once its head points back to `prev` and the node is freed.
  Roster-behind :
      (g : Ptr → Option Start) (p prev back next : Ptr) (m : Start) (x y : Option Start)
      (f : Created) (es : List Created)
      → back ≡ prev
      → next ≡ f.at
      → f.at ≢ null
      → IsUnstarted p f m
      → Roster g f.at m.next es
      → Out p (f ∷ es)
      → Distinct (f ∷ es)
      → Roster
          (write (write (write g next (some (record m { prev = back }))) p x) p y)
          prev
          next
          (f ∷ es)
  Roster-behind g p prev back next m x y f es b q ne is rest out d =
      let marked = Roster-write g f.at m.next next _ es (rw q d.0) rest in
      let cut = Roster-write _ f.at m.next p x es out.1 marked in
      (
        q,
        ne,
        (
          record m { prev = back },
          ground (arith, out.0),
          record { back = b; coroutine = is.coroutine; entry = is.entry; arg = is.arg },
          Roster-write _ f.at m.next p y es out.1 cut,
        ),
      )

  -- What the start of `e` leaves behind, where `rest` are the other coroutines.
  pub record Started (s : State E) (e : Created) (rest : List Created) : Type 0 where
    pub last : State E
    pub run : trampoline_start aco e.at s ≡ ok e.entry last
    pub listed : Roster last.starts null last.unstarted_head rest
    pub distinct : Distinct rest
    pub freed : last.starts e.at ≡ none
    pub given : last.env ≡ aco.set_arg e.arg s.env
    pub elsewhere : (a : Ptr) → Out a rest → e.at ≢ a → last.starts a ≡ s.starts a
    pub only :
        last
        ≡ record s { unstarted_head = last.unstarted_head; starts = last.starts; env = last.env }

  Started-first :
      (s : State E) (e : Created) (post : List Created)
      → Roster s.starts null s.unstarted_head (e ∷ post)
      → Distinct (e ∷ post)
      → Started s e post
  Started-first s e [] (q, ne, (n, at, is, rest)) d = record {
    last = begun s e.at n.next n s.starts;
    run = rw (sym is.entry) (start-only s e.at n ne at is.back rest);
    listed = rest;
    distinct = tt;
    freed = ground arith;
    given = ground (arith, is.arg);
    elsewhere = λ a out away. ground arith;
    only = refl;
  }
  Started-first s e (f ∷ post) (q, ne, (n, at, is, (qf, nef, (m, atf, isf, rest)))) d = record {
    last = begun s e.at n.next n (write s.starts n.next (some (record m { prev = n.prev })));
    run =
        rw (sym is.entry)
          (start-first s e.at n m ne at is.back (rw qf nef) (ground (arith, d.0.0)) (rw qf atf));
    listed =
        Roster-behind s.starts e.at null n.prev n.next m _ _ f post is.back qf nef isf rest d.0 d.1;
    distinct = d.1;
    freed = ground arith;
    given = ground (arith, is.arg);
    elsewhere = λ a out away. ground (arith, out.0);
    only = refl;
  }

  Started-inner :
      (s : State E) (a : Created) (pre : List Created) (e : Created) (post : List Created)
      → Roster s.starts null s.unstarted_head (a ∷ (pre ++ e ∷ post))
      → Distinct (a ∷ (pre ++ e ∷ post))
      → Started s e (a ∷ (pre ++ post))
  Started-inner s a pre e [] ch d =
      let l =
        locate unstarted s.starts null s.unstarted_head a pre e []
          (Roster-Linked s.starts null s.unstarted_head (a ∷ (pre ++ e ∷ [])) ch) in
      let (ne, away, out, d') = apart created_at a pre e [] d in
      let back : l.n.prev ≡ last_of created_at a pre = l.live.back in
      let t : State E =
        begun s e.at s.unstarted_head l.n
          (write s.starts l.n.prev (some (record (l.q) { next = l.n.next }))) in
      record {
        last = t;
        run = rw (sym l.live.entry) (
            start-last s e.at l.n l.q l.ne_null.1 l.holds (rw back l.ne_null.0) (ground arith)
              (rw back l.prior) l.rest);
        listed = Linked-Roster t.starts null s.unstarted_head (a ∷ (pre ++ [])) (
            l.relink t.starts l.n.next (ground arith)
              (before-same created_at s.starts t.starts a pre e [] d (λ x nl nx nf. ground arith))
              l.rest);
        distinct = Separate-middle created_at (a ∷ pre) e [] d;
        freed = ground arith;
        given = ground (arith, l.live.arg);
        elsewhere = λ x o nx. ground (arith, Clear-last created_at x a pre [] o);
        only = refl;
      }
  Started-inner s a pre e (f ∷ post) ch d =
      let l =
        locate unstarted s.starts null s.unstarted_head a pre e (f ∷ post)
          (Roster-Linked s.starts null s.unstarted_head (a ∷ (pre ++ e ∷ f ∷ post)) ch) in
      let (ne, away, out, d') = apart created_at a pre e (f ∷ post) d in
      let back : l.n.prev ≡ last_of created_at a pre = l.live.back in
      let (qf, nef, (m, atf, isf, after)) = l.rest in
      let rest = Linked-Roster s.starts f.at m.next post after in
      let g = write s.starts l.n.prev (some (record (l.q) { next = l.n.next })) in
      let t : State E =
        begun s e.at s.unstarted_head l.n
          (write g l.n.next (some (record m { prev = l.n.prev }))) in
      record {
        last = t;
        run = rw (sym l.live.entry) (
            start-inner s e.at l.n l.q m l.ne_null.1 l.holds (rw back l.ne_null.0) (ground arith)
              (rw back l.prior) (rw qf nef) (ground (arith, out.0)) (ground (arith, away.0))
              (rw qf atf));
        listed = Linked-Roster t.starts null s.unstarted_head (a ∷ (pre ++ f ∷ post)) (
            l.relink t.starts l.n.next (ground (arith, away.0))
              (before-same created_at s.starts t.starts a pre e (f ∷ post) d
                (λ x nl nx nf. ground (arith, nf.0)))
              (Roster-Linked t.starts (last_of created_at a pre) l.n.next (f ∷ post) (
                Roster-behind g e.at (last_of created_at a pre) l.n.prev l.n.next m _ _ f post back
                  qf nef isf
                  (Roster-write s.starts f.at m.next l.n.prev _ post
                    (Clear-same created_at post back away.1) rest)
                  out d')));
        distinct = Separate-middle created_at (a ∷ pre) e (f ∷ post) d;
        freed = ground arith;
        given = ground (arith, l.live.arg);
        elsewhere = λ x o nx. ground (
          arith,
          Clear-last created_at x a pre (f ∷ post) o,
          (Clear-middle created_at x pre f post o.1).0,
        );
        only = refl;
      }

  -- `sCoroutineTrampoline` up to its call of the entry, on any coroutine of a well-formed list of those that
  -- have not started: it returns the entry that the coroutine was created with and gives it its argument,
  -- frees its node, and leaves a well-formed list of exactly the others, in their order. No other node and
  -- nothing else of the thread changes.
  pub trampoline_start-Started :
      (s : State E) (pre : List Created) (e : Created) (post : List Created)
      → Roster s.starts null s.unstarted_head (pre ++ e ∷ post)
      → Distinct (pre ++ e ∷ post)
      → Started s e (pre ++ post)
  trampoline_start-Started s [] e post ch d = Started-first s e post ch d
  trampoline_start-Started s (a ∷ pre) e post ch d = Started-inner s a pre e post ch d
