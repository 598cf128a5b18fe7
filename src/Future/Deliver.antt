-- ===== src/Future/Deliver.antt =====
-- sDrainContinuations over the continuations of a future.
use ufsrvrxlib.Base.Memory.{not_null, same_ptr}
use ufsrvrxlib.Base.{ℕ, ◌≡◌, refl, ◌≢◌, ◌∙◌, false, none, some, List, [], ◌∷◌, arith, All}
use ufsrvrxlib.Future.Interface.{TreiberStack, NodeBase, FutureResult, Host}
use ufsrvrxlib.Future.Heap.{user_fn, Call, Ptr, null, Future, Continuation, State, ok, write}
use ufsrvrxlib.Future.Pending.{Registration, Out, Distinct, addresses, Queued, Queued-write}
use ufsrvrxlib.Future.{deliver, node_release, run_continuation, run_continuations}

-- The program's own continuations act on the rest of the program only, as the host says.
abbrev pub IsPlain : {E S B : Type 0} → Host E → Call E S B → Type 0
IsPlain {E} {S} {B} host call =
    (g user : ℕ) (r : FutureResult) (s : State E S B)
    → call.run (user_fn g) user r s
      ≡ ok (some (host.deliver g user r s.env).0)
          (record s { env = (host.deliver g user r s.env).1 })

module _ {E : Type 0} (host : Host E) where
  -- The continuations called in order, each on the result as the one before left it.
  abbrev pub deliver_all : List Registration → FutureResult × E → FutureResult × E
  deliver_all [] x = x
  deliver_all (r ∷ rs) x = deliver_all rs (host.deliver r.fn r.user x.0 x.1)

module _ {E S B : Type 0} (host : Host E) (stack : TreiberStack S) (base : NodeBase B)
    (call : Call E S B) (plain : IsPlain host call) where
  -- The state once one continuation has run and its node is freed.
  abbrev after_one : State E S B → Ptr → Future S → Ptr → Continuation B → ℕ → State E S B
  after_one s p f c n g = record s {
    futures =
        write s.futures p (some (record f { result = (host.deliver g n.user f.result s.env).0 }));
    conts = write (write s.conts c (some (record n { base = (base.claim n.base).1 }))) c none;
    env = (host.deliver g n.user f.result s.env).1;
  }

  run_continuations-step :
      (s : State E S B) (p c : Ptr) (cs : List Ptr) (f : Future S) (n : Continuation B) (g : ℕ)
      → p ≢ null
      → c ≢ null
      → s.futures p ≡ some f
      → s.conts c ≡ some n
      → base.refs n.base ≡ 1
      → base.claimed n.base ≡ false
      → n.fn ≡ user_fn g
      → run_continuations host stack base call p (c ∷ cs) s
        ≡ run_continuations host stack base call p cs (after_one s p f c n g)
  unfolding run_continuations run_continuation node_release deliver
  run_continuations-step s p c cs f n g hp hc ef en one un fn =
      let (granted, marked, kept) = base.claim-once n.base un in
      let last = base.release-last (base.claim n.base).1 (kept ∙ one) in
      simp (not_null p hp, not_null c hc, ef, en, granted, fn, plain g, same_ptr c, last)

  -- What a drain leaves: the last result in the future, the nodes freed and all else as it was.
  pub record Drained (s : State E S B) (p : Ptr) (f : Future S) (rs : List Registration)
      (t : State E S B) : Type 0 where
    pub future :
        t.futures p ≡ some (record f { result = (deliver_all host rs (f.result, s.env)).0 })
    pub other_futures : (q : Ptr) → q ≢ p → t.futures q ≡ s.futures q
    pub env : t.env ≡ (deliver_all host rs (f.result, s.env)).1
    pub freed : All (λ r. t.conts r.at ≡ none) rs
    pub other_nodes : (a : Ptr) → Out a rs → t.conts a ≡ s.conts a
    pub promises : t.promises ≡ s.promises
    pub waiting : t.waiting ≡ s.waiting
    pub contexts : t.contexts ≡ s.contexts

  abbrev after_result : State E S B → Future S → Continuation B → ℕ → Future S
  after_result s f n g = record f { result = (host.deliver g n.user f.result s.env).0 }

  Drained-step :
      (s t : State E S B) (p : Ptr) (f : Future S) (r : Registration) (rs : List Registration)
      (n : Continuation B)
      → Out r.at rs
      → n.user ≡ r.user
      → Drained (after_one s p f r.at n r.fn) p (after_result s f n r.fn) rs t
      → Drained s p f (r ∷ rs) t
  Drained-step s t p f r rs n out user left = record {
    future = left.future ∙ simp user;
    other_futures = λ q ne. left.other_futures q ne ∙ ground arith;
    env = left.env ∙ simp user;
    freed = (left.other_nodes r.at out ∙ ground arith, left.freed);
    other_nodes = λ a away. left.other_nodes a away.1 ∙ ground (arith, away.0);
    promises = left.promises;
    waiting = left.waiting;
    contexts = left.contexts;
  }

  Queued-after :
      (s : State E S B) (p : Ptr) (f : Future S) (c : Ptr) (n : Continuation B) (g : ℕ)
      (rs : List Registration)
      → Out c rs
      → Queued stack base s.conts rs
      → Queued stack base (after_one s p f c n g).conts rs
  Queued-after s p f c n g rs out q =
      Queued-write stack base _ c none rs out (Queued-write stack base s.conts c _ rs out q)

  pub run_continuations-Drained :
      (s : State E S B) (p : Ptr) (f : Future S) (rs : List Registration)
      → p ≢ null
      → s.futures p ≡ some f
      → Queued stack base s.conts rs
      → Distinct rs
      → (t : State E S B) × (run_continuations host stack base call p (addresses rs) s ≡ ok tt t)
        × Drained s p f rs t
  unfolding run_continuations
  run_continuations-Drained s p f [] hp ef q d = (
    s,
    refl,
    record {
      future = ef;
      other_futures = λ q ne. refl;
      env = refl;
      freed = tt;
      other_nodes = λ a out. refl;
      promises = refl;
      waiting = refl;
      contexts = refl;
    },
  )
  run_continuations-Drained s p f (r ∷ rs) hp ef ((ne, (n, at, is)), q) (out, d) =
      let (t, run, left) =
        run_continuations-Drained (after_one s p f r.at n r.fn) p (after_result s f n r.fn) rs hp
          (ground arith) (Queued-after s p f r.at n r.fn rs out q) d in
      (
        t,
        run_continuations-step s p r.at (addresses rs) f n r.fn hp ne ef at is.one is.unclaimed
              is.fn
            ∙ run,
        Drained-step s t p f r rs n out is.user left,
      )
