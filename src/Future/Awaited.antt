-- ===== src/Future/Awaited.antt =====
-- sDrainWaiters over any waiters of a future.
use ufsrvrxlib.Base.Memory.{not_null, same_ptr}
use ufsrvrxlib.Base.{
  ℕ, suc, ◌-◌, ◌≡◌, refl, ◌≢◌, ◌∙◌, ◌⊎◌, inl, inr, true, Option, none, some, List, [], ◌∷◌, arith,
  All, Bool-cases, Option-cases, ◌==◌, if◌then◌else◌,
}
use ufsrvrxlib.Future.Interface.{TreiberStack, NodeBase, Host}
use ufsrvrxlib.Future.Heap.{Ptr, null, Waiter, State, ok, write}
use ufsrvrxlib.Future.{wake_waiter, waiter_release, wake_waiters}

-- A waiter in the stack: its address and what it is.
pub record Awaiting (B : Type 0) : Type 0 where
  pub at : Ptr
  pub waiter : Waiter B

abbrev pub spots : {B : Type 0} → List (Awaiting B) → List Ptr
spots [] = []
spots (w ∷ ws) = w.at ∷ spots ws

abbrev pub Away : {B : Type 0} → Ptr → List (Awaiting B) → Type 0
Away a ws = All (λ w. w.at ≢ a) ws

abbrev pub Apart : {B : Type 0} → List (Awaiting B) → Type 0
Apart [] = Unit {0}
Apart (w ∷ ws) = Away w.at ws × Apart ws

module _ {E S B : Type 0} (host : Host E) (stack : TreiberStack S) (base : NodeBase B) where
  -- A coroutine is submitted to its scheduler, which may refuse it; the descriptor of a thread is written to.
  abbrev wake_up : (coroutine : Option ℕ) (scheduler : ℕ) (fd : Option ℕ) → E → Option E
  wake_up (some co) sched fd env = host.submit_resume sched co env
  wake_up none sched none env = some env
  wake_up none sched (some fd) env = some (host.write_fd fd env)

  -- A waiter that a cancellation has claimed is passed over.
  abbrev pub wake_env : Awaiting B → E → Option E
  wake_env w env =
      if base.claimed w.waiter.base
      then some env
      else wake_up w.waiter.coroutine w.waiter.scheduler w.waiter.block_fd env

  -- The waiters woken in order; `none` where a scheduler refuses a coroutine.
  abbrev pub wake_all : List (Awaiting B) → E → Option E
  wake_all [] env = some env
  wake_all (w ∷ ws) env = elim (wake_env w env) [ none ↦ none | some e ↦ wake_all ws e ]

  -- Before the drain each node is where it should be, and the stack refers to it.
  abbrev pub Ready : (Ptr → Option (Waiter B)) → List (Awaiting B) → Type 0
  Ready h ws =
      All
        (λ w.
          (w.at ≢ null) × (h w.at ≡ some w.waiter) × ((n : ℕ) × (base.refs w.waiter.base ≡ suc n)))
        ws

  -- Behind it a node is freed where the stack's reference was the last; otherwise it is claimed, and has one
  -- reference less.
  abbrev pub IsLeft : Awaiting B → Option (Waiter B) → Type 0
  IsLeft w left =
      ((base.refs w.waiter.base ≡ 1) × (left ≡ none))
      ⊎ ((n : ℕ) × (base.refs w.waiter.base ≡ suc (suc n))
          × ((v : Waiter B) × (left ≡ some v)
              × (base.refs v.base ≡ suc n)
              × (base.claimed v.base ≡ true)))

  abbrev marked_waiter : Waiter B → Waiter B
  marked_waiter w = record w { base = (base.claim w.base).1 }

  abbrev left_of : Waiter B → Option (Waiter B)
  left_of w =
      if (base.release (base.claim w.base).1).0
      then none
      else some (record w { base = (base.release (base.claim w.base).1).1 })

  claim_lem :
      (b : B) → (base.claimed (base.claim b).1 ≡ true) × (base.refs (base.claim b).1 ≡ base.refs b)
  claim_lem b = elim (Bool-cases (base.claimed b)) [
    | inl y ↦ (let c = base.claim-again b y in (c.1, c.2))
    | inr n ↦ (let c = base.claim-once b n in (c.1, c.2))
  ]

  left_of-IsLeft :
      (w : Awaiting B) (n : ℕ) → base.refs w.waiter.base ≡ suc n → IsLeft w (left_of w.waiter)
  left_of-IsLeft w n e = elim (Bool-cases (n == 0)) [
    | inl zero_left ↦
        let one : base.refs w.waiter.base ≡ 1 = ground arith in
        let last =
          base.release-last (base.claim w.waiter.base).1 ((claim_lem w.waiter.base).1 ∙ one) in
        inl (one, simp last)
    | inr more ↦
        let two : base.refs w.waiter.base ≡ suc (suc (n - 1)) = ground arith in
        let kept =
          base.release-more (base.claim w.waiter.base).1 (n - 1)
            ((claim_lem w.waiter.base).1 ∙ two) in
        inr (
          n - 1,
          two,
          (
            record (w.waiter) { base = (base.release (base.claim w.waiter.base).1).1 },
            simp kept.0,
            kept.1,
            kept.2 ∙ (claim_lem w.waiter.base).0,
          ),
        )
  ]

  wake_up-run :
      (w : Waiter B) (co : Option ℕ) (fd : Option ℕ) (t : State E S B) (e : E)
      → w.coroutine ≡ co
      → w.block_fd ≡ fd
      → wake_up co w.scheduler fd t.env ≡ some e
      → wake_waiter host stack base w t ≡ ok tt (record t { env = e })
  unfolding wake_waiter
  wake_up-run w (some co) fd t e c f h = ground arith
  wake_up-run w none (some fd) t e c f h = ground arith
  wake_up-run w none none t e c f h = ground arith

  abbrev stepped : State E S B → Ptr → Waiter B → E → State E S B
  stepped t a w e = record t {
    waiting = write (write t.waiting a (some (marked_waiter w))) a (left_of w);
    env = e;
  }

  wake_waiters-step :
      (t : State E S B) (w : Awaiting B) (ps : List Ptr) (e : E)
      → w.at ≢ null
      → t.waiting w.at ≡ some w.waiter
      → wake_env w t.env ≡ some e
      → wake_waiters host stack base (w.at ∷ ps) t
        ≡ wake_waiters host stack base ps (stepped t w.at w.waiter e)
  unfolding wake_waiters waiter_release
  wake_waiters-step t w ps e ne at woken = elim (Bool-cases (base.claimed w.waiter.base)) [
    | inl y ↦
        let refused = (base.claim-again w.waiter.base y).0 in
        let same : t.env ≡ e = ground arith in
        simp (not_null w.at ne, at, refused, same_ptr w.at, same)
    | inr n ↦
        let granted = (base.claim-once w.waiter.base n).0 in
        let u : State E S B = record t {
          waiting = write t.waiting w.at (some (marked_waiter w.waiter));
        } in
        let ran =
          wake_up-run w.waiter w.waiter.coroutine w.waiter.block_fd u e refl refl (ground arith) in
        simp (not_null w.at ne, at, granted, ran, same_ptr w.at)
  ]

  -- What the drain of these waiters leaves.
  pub record Roused (s : State E S B) (ws : List (Awaiting B)) (e : E) (t : State E S B)
      : Type 0 where
    pub env : t.env ≡ e
    pub left : All (λ w. IsLeft w (t.waiting w.at)) ws
    pub elsewhere : (a : Ptr) → Away a ws → t.waiting a ≡ s.waiting a
    pub futures : t.futures ≡ s.futures
    pub promises : t.promises ≡ s.promises
    pub conts : t.conts ≡ s.conts
    pub contexts : t.contexts ≡ s.contexts

  Ready-write :
      (h : Ptr → Option (Waiter B)) (a : Ptr) (c : Option (Waiter B)) (ws : List (Awaiting B))
      → Away a ws
      → Ready h ws
      → Ready (write h a c) ws
  Ready-write h a c [] out r = tt
  Ready-write h a c (w ∷ ws) out ((ne, at, n), r) =
      ((ne, ground (arith, out.0), n), Ready-write h a c ws out.1 r)

  pub wake_waiters-Roused :
      (s : State E S B) (ws : List (Awaiting B)) (e : E)
      → Ready s.waiting ws
      → Apart ws
      → wake_all ws s.env ≡ some e
      → (t : State E S B) × (wake_waiters host stack base (spots ws) s ≡ ok tt t) × Roused s ws e t
  unfolding wake_waiters
  wake_waiters-Roused s [] e r d h = (
    s,
    refl,
    record {
      env = ground arith;
      left = tt;
      elsewhere = λ a out. refl;
      futures = refl;
      promises = refl;
      conts = refl;
      contexts = refl;
    },
  )
  wake_waiters-Roused s (w ∷ ws) e ((ne, at, (n, refs)), r) (out, d) h =
      elim (Option-cases (wake_env w s.env)) [
        | inl stuck ↦ absurd (ground (arith, h, stuck))
        | inr (e1, woken) ↦
            let u = stepped s w.at w.waiter e1 in
            let later : wake_all ws u.env ≡ some e = ground arith in
            let (t, ran, v) =
              wake_waiters-Roused u ws e
                (Ready-write _ w.at _ ws out (Ready-write s.waiting w.at _ ws out r)) d later in
            let here : t.waiting w.at ≡ left_of w.waiter = v.elsewhere w.at out ∙ ground arith in
            (
              t,
              wake_waiters-step s w (spots ws) e1 ne at woken ∙ ran,
              record {
                env = v.env;
                left = (rw here (left_of-IsLeft w n refs), v.left);
                elsewhere = λ a away. v.elsewhere a away.1 ∙ ground (arith, away.0);
                futures = v.futures;
                promises = v.promises;
                conts = v.conts;
                contexts = v.contexts;
              },
            )
      ]
