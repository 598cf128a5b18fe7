-- ===== src/Coroutine/Create.antt =====
-- UfsrvCoroutineCreate and UfsrvCoroutineThreadCleanup: the list that a coroutine waits in until it
-- starts, and the end of the thread.
use ufsrvrxlib.Base.Memory.{not_null, other_ptr, same_ptr}
use ufsrvrxlib.Base.{
  ℕ, ◌<◌, ◌≡◌, refl, ap, ◌≢◌, true, false, Option, none, some, List, [], ◌∷◌, arith, All, length,
}
use ufsrvrxlib.Coroutine.Heap.{Ptr, null, Start, State, Aco, ok, write}
use ufsrvrxlib.Coroutine.Roster.{
  Created, IsUnstarted, Roster, Out, Distinct, Roster-write, unused-Out,
}
use ufsrvrxlib.Coroutine.Unstarted.{destroy_all, reclaim_unstarted-Reclaimed}
use ufsrvrxlib.Coroutine.{
  unstarted_link, reclaim_unstarted, free_thread_state, ensure_thread_init, coroutine_create,
  thread_cleanup,
}

module _ {E : Type 0} (aco : Aco E) where
  abbrev node : (entry arg : ℕ) → Start
  node entry arg = record { prev = null; next = null; coroutine = none; entry = entry; arg = arg }

  abbrev owned : (entry arg co : ℕ) → Start
  owned entry arg co = record (node entry arg) { coroutine = some co }

  -- The state once a coroutine was made and its node, the first, is linked before `h`.
  abbrev listed : State E → Ptr → (entry arg co : ℕ) → E → (Ptr → Option Start) → State E
  listed s a entry arg co env h = record s { unstarted_head = a; starts = h; env = env }

  abbrev made_nodes : State E → Ptr → (entry arg co : ℕ) → Ptr → Ptr → Option Start
  made_nodes s a entry arg co next =
      write (write (write s.starts a (some (node entry arg))) a (some (owned entry arg co))) a
        (some (record (owned entry arg co) { next = next }))

  create-first :
      (s : State E) (a : Ptr) (entry arg co : ℕ) (env : E)
      → a ≢ null
      → s.initialized ≡ true
      → s.unstarted_head ≡ null
      → aco.create s.main_co s.share_stack a s.env ≡ (some co, env)
      → coroutine_create aco a (some entry) arg s
        ≡ ok (some co) (listed s a entry arg co env (made_nodes s a entry arg co s.unstarted_head))
  unfolding coroutine_create ensure_thread_init unstarted_link
  create-first s a entry arg co env ha up empty made =
      simp (up, not_null a ha, made, same_ptr a, empty)

  create-more :
      (s : State E) (a : Ptr) (entry arg co : ℕ) (env : E) (old : Start)
      → a ≢ null
      → s.initialized ≡ true
      → s.unstarted_head ≢ null
      → s.unstarted_head ≢ a
      → s.starts s.unstarted_head ≡ some old
      → aco.create s.main_co s.share_stack a s.env ≡ (some co, env)
      → coroutine_create aco a (some entry) arg s
        ≡ ok (some co) (
            listed s a entry arg co env (
              write
                (made_nodes s a entry arg co s.unstarted_head)
                s.unstarted_head
                (some (record old { prev = a }))))
  unfolding coroutine_create ensure_thread_init unstarted_link
  create-more s a entry arg co env old ha up more apart at made = simp (
    up,
    not_null a ha,
    made,
    same_ptr a,
    not_null s.unstarted_head more,
    other_ptr s.unstarted_head a apart,
    at,
  )

  create-refused :
      (s : State E) (a : Ptr) (entry arg : ℕ) (env : E)
      → a ≢ null
      → s.initialized ≡ true
      → aco.create s.main_co s.share_stack a s.env ≡ (none, env)
      → coroutine_create aco a (some entry) arg s
        ≡ ok none (record s {
          starts = write (write s.starts a (some (node entry arg))) a none;
          env = env;
        })
  unfolding coroutine_create ensure_thread_init
  create-refused s a entry arg env ha up made = simp (up, not_null a ha, made)

  -- What UfsrvCoroutineCreate may come to, by what aco_create gives.
  abbrev pub Outcome : State E → Ptr → (entry arg : ℕ) → List Created → Option ℕ × E → Type 0
  Outcome s a entry arg es (none, env) =
      (t : State E) × (coroutine_create aco a (some entry) arg s ≡ ok none t)
      × ((b : Ptr) → t.starts b ≡ s.starts b)
      × (t ≡ record s { starts = t.starts; env = env })
  Outcome s a entry arg es (some co, env) =
      let e : Created = record { at = a; coroutine = co; entry = entry; arg = arg } in
      (t : State E) × (coroutine_create aco a (some entry) arg s ≡ ok (some co) t)
      × Roster t.starts null t.unstarted_head (e ∷ es)
      × Distinct (e ∷ es)
      × (t ≡ record s { starts = t.starts; unstarted_head = t.unstarted_head; env = env })

  -- What was first stands second, behind the node at `a`.
  enlisted-second :
      (s : State E) (a : Ptr) (entry arg co : ℕ) (f : Created) (es : List Created) (old : Start)
      → s.unstarted_head ≡ f.at
      → f.at ≢ null
      → s.starts f.at ≡ some old
      → IsUnstarted null f old
      → Roster s.starts f.at old.next es
      → Out a (f ∷ es)
      → Distinct (f ∷ es)
      → Roster
          (write
            (made_nodes s a entry arg co s.unstarted_head)
            s.unstarted_head
            (some (record old { prev = a })))
          a
          s.unstarted_head
          (f ∷ es)
  enlisted-second s a entry arg co f es old q ne at is rest out d =
      let out_head : Out s.unstarted_head es = rw q d.0 in
      (
        q,
        ne,
        (
          record old { prev = a },
          ground arith,
          record { back = refl; coroutine = is.coroutine; entry = is.entry; arg = is.arg },
          Roster-write _ f.at old.next s.unstarted_head _ es out_head (
              Roster-write _ f.at old.next a _ es out.1 (
                Roster-write _ f.at old.next a _ es out.1
                  (Roster-write s.starts f.at old.next a _ es out.1 rest))),
        ),
      )

  pub create-Outcome :
      (s : State E) (a : Ptr) (entry arg : ℕ) (es : List Created) (made : Option ℕ × E)
      → a ≢ null
      → s.initialized ≡ true
      → s.starts a ≡ none
      → Roster s.starts null s.unstarted_head es
      → Distinct es
      → aco.create s.main_co s.share_stack a s.env ≡ made
      → Outcome s a entry arg es made
  create-Outcome s a entry arg es (none, env) ha up unused ch d made =
      (_, create-refused s a entry arg env ha up made, λ b. ground arith, refl)
  create-Outcome s a entry arg [] (some co, env) ha up unused ch d made = (
    _,
    create-first s a entry arg co env ha up ch made,
    (
      refl,
      ha,
      (
        record (owned entry arg co) { next = s.unstarted_head },
        ground arith,
        record { back = refl; coroutine = refl; entry = refl; arg = refl },
        ch,
      ),
    ),
    (tt, tt),
    refl,
  )
  create-Outcome s a entry arg (f ∷ es) (some co, env) ha up unused ch d made =
      let (q, ne, (old, at, is, rest)) = ch in
      let more : s.unstarted_head ≢ null = ground arith in
      let here : s.starts s.unstarted_head ≡ some old = rw q at in
      let apart : s.unstarted_head ≢ a = ground arith in
      let out = unused-Out s.starts null s.unstarted_head a (f ∷ es) ch unused in
      (
        _,
        create-more s a entry arg co env old ha up more apart here made,
        (
          refl,
          ha,
          (
            record (owned entry arg co) { next = s.unstarted_head },
            ground arith,
            record { back = refl; coroutine = refl; entry = refl; arg = refl },
            enlisted-second s a entry arg co f es old q ne at is rest out d,
          ),
        ),
        (out, d),
        refl,
      )

  -- `UfsrvCoroutineCreate` with an entry, on a thread that is initialised, with a new node and a list of
  -- coroutines that have not started: where aco_create gives a coroutine, it is returned and stands
  -- first in the list, which stays well formed; where it gives NULL, NULL is returned, the node is
  -- freed again and the list is as it was. Nothing else of the thread changes.
  pub coroutine_create-Outcome :
      (s : State E) (a : Ptr) (entry arg : ℕ) (es : List Created)
      → a ≢ null
      → s.initialized ≡ true
      → s.starts a ≡ none
      → Roster s.starts null s.unstarted_head es
      → Distinct es
      → Outcome s a entry arg es (aco.create s.main_co s.share_stack a s.env)
  coroutine_create-Outcome s a entry arg es ha up unused ch d =
      create-Outcome s a entry arg es (aco.create s.main_co s.share_stack a s.env) ha up unused ch d
        refl

  -- The environment once the stack and the main coroutine are destroyed.
  abbrev pub torn_down : (share_stack main_co : Option ℕ) → E → E
  torn_down none none env = env
  torn_down none (some co) env = aco.destroy co env
  torn_down (some st) none env = aco.share_stack_destroy st env
  torn_down (some st) (some co) env = aco.destroy co (aco.share_stack_destroy st env)

  cleanup-run :
      (k : ℕ) (s t : State E) (st co : Option ℕ)
      → s.initialized ≡ true
      → reclaim_unstarted aco k s ≡ ok tt t
      → t.share_stack ≡ st
      → t.main_co ≡ co
      → thread_cleanup aco k s
        ≡ ok tt (record t {
          share_stack = none;
          main_co = none;
          initialized = false;
          env = torn_down st co t.env;
        })
  unfolding thread_cleanup free_thread_state
  cleanup-run k s t none none up ran stack main = simp (up, ran, stack, main)
  cleanup-run k s t none (some co) up ran stack main = simp (up, ran, stack, main)
  cleanup-run k s t (some st) none up ran stack main = simp (up, ran, stack, main)
  cleanup-run k s t (some st) (some co) up ran stack main = simp (up, ran, stack, main)

  -- `UfsrvCoroutineThreadCleanup` on an initialised thread, with fuel for one round more than the list is
  -- long, ends: it destroys the coroutines that have not started, the newest first, then the shared
  -- stack, then the main coroutine, each exactly once where there is one; it frees the nodes, and the
  -- thread is as it was before its first use.
  pub thread_cleanup_lem :
      (k : ℕ) (s : State E) (es : List Created)
      → s.initialized ≡ true
      → Roster s.starts null s.unstarted_head es
      → Distinct es
      → length es < k
      → (t : State E) × (thread_cleanup aco k s ≡ ok tt t)
        × (t.env ≡ torn_down s.share_stack s.main_co (destroy_all aco es s.env))
        × All (λ e. t.starts e.at ≡ none) es
        × (t.unstarted_head ≡ null)
        × (t.share_stack ≡ none)
        × (t.main_co ≡ none)
        × (t.initialized ≡ false)
  thread_cleanup_lem k s es up ch d h =
      let r = reclaim_unstarted-Reclaimed aco k s es ch d h in
      (
        _,
        cleanup-run k s r.last s.share_stack s.main_co up r.run r.thread.1 r.thread.0,
        ap (torn_down s.share_stack s.main_co) r.destroyed,
        r.freed,
        r.emptied,
        refl,
        refl,
        refl,
      )
