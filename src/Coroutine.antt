-- ===== src/Coroutine.antt =====
-- src/ufsrv_coroutine/ufsrv_coroutine.c: the coroutines of one thread, over libaco. What malloc returns
-- is an argument, and so are aco_resume and UfsrvSchedulerSubmit, which may run other code of the thread.
pub mod Heap
pub mod Roster
pub mod Unstarted
pub mod Create
pub mod Trampoline
pub mod Spawned
use ufsrvrxlib.Base.{
  ℕ, zero, suc, Bool, true, false, not, ◌&&◌, Option, none, some, ◌==◌, if◌then◌else◌,
}
use Heap.{
  Ptr, null, Start, ResumeContext, SpawnContext, State, Aco, Run, ok, fault, out_of_fuel, Cmd, pure,
  ◌>>=◌, ◌>>◌, get, modify, change_env, set_head, load_start, store_start, load_resume,
  store_resume, load_spawn, store_spawn,
}

module _ {E : Type 0} where
  -- `sUnstartedLink`.
  unfoldable pub unstarted_link : Ptr → Cmd E (Unit {0})
  unstarted_link p = do
    n ← load_start p
    s ← get
    store_start p (some (record n { prev = null; next = s.unstarted_head }))
    if s.unstarted_head == null then pure tt else (do
      old ← load_start s.unstarted_head
      store_start s.unstarted_head (some (record old { prev = p })))
    set_head p

  -- `sUnstartedUnlink`.
  unfoldable pub unstarted_unlink : Ptr → Cmd E (Unit {0})
  unstarted_unlink p = do
    n ← load_start p
    if n.prev == null
        then set_head n.next
        else (do q ← load_start n.prev; store_start n.prev (some (record q { next = n.next })))
    if n.next == null
        then pure tt
        else (do q ← load_start n.next; store_start n.next (some (record q { prev = n.prev })))
    m ← load_start p
    store_start p (some (record m { prev = null; next = null }))

module _ {E : Type 0} (aco : Aco E) where
  -- `aco_destroy`, where the coroutine is not NULL.
  abbrev pub destroy_co : Option ℕ → Cmd E (Unit {0})
  destroy_co none = pure tt
  destroy_co (some co) = change_env (aco.destroy co)

  abbrev destroy_stack : Option ℕ → Cmd E (Unit {0})
  destroy_stack none = pure tt
  destroy_stack (some st) = change_env (aco.share_stack_destroy st)

  -- `sReclaimUnstarted`.
  pub reclaim_unstarted : (fuel : ℕ) → Cmd E (Unit {0})
  unfolding unstarted_unlink
  reclaim_unstarted zero = λ s. out_of_fuel
  reclaim_unstarted (suc k) = do
    s ← get
    if s.unstarted_head == null then pure tt else do
      unstarted_unlink s.unstarted_head
      n ← load_start s.unstarted_head
      destroy_co n.coroutine
      store_start s.unstarted_head none
      reclaim_unstarted k

  -- `sFreeThreadState`.
  unfoldable pub free_thread_state : (fuel : ℕ) → Cmd E (Unit {0})
  unfolding reclaim_unstarted
  free_thread_state fuel = do
    reclaim_unstarted fuel
    s ← get
    destroy_stack s.share_stack
    modify (λ t. record t { share_stack = none })
    destroy_co s.main_co
    modify (λ t. record t { main_co = none })
    modify (λ t. record t { initialized = false })

  -- `sThreadStateDestructor`.
  pub thread_state_destructor : (fuel : ℕ) → Cmd E (Unit {0})
  unfolding free_thread_state
  thread_state_destructor fuel = free_thread_state fuel

  -- `sEnsureThreadInit`.
  unfoldable pub ensure_thread_init : Cmd E (Unit {0})
  ensure_thread_init = do
    s ← get
    if s.initialized then pure tt else do
      change_env aco.register_destructor
      change_env aco.thread_init
      modify (λ t. let (co, env) = aco.create_main t.env in record t { main_co = co; env = env })
      modify (λ t.
          let (st, env) = aco.share_stack_new t.env in record t { share_stack = st; env = env })
      modify (λ t. record t { initialized = true })

  -- `sCoroutineTrampoline` up to the call of the entry, which is returned.
  unfoldable pub trampoline_start : (start : Ptr) → Cmd E ℕ
  unfolding unstarted_unlink
  trampoline_start p = do
    n ← load_start p
    unstarted_unlink p
    store_start p none
    change_env (aco.set_arg n.arg)
    pure n.entry

  -- `sCoroutineTrampoline`, where `run_entry` is the code of an entry.
  unfoldable pub trampoline : (run_entry : ℕ → Cmd E (Unit {0})) → Cmd E (Unit {0})
  unfolding trampoline_start
  trampoline run_entry = do
    s ← get
    entry ← trampoline_start (aco.get_arg s.env)
    run_entry entry
    change_env aco.exit

  -- `UfsrvCoroutineCreate`; `none` is NULL.
  unfoldable pub coroutine_create : (fresh : Ptr) → (entry : Option ℕ) (arg : ℕ) → Cmd E (Option ℕ)
  unfolding ensure_thread_init unstarted_link
  coroutine_create fresh none arg = pure none
  coroutine_create fresh (some entry) arg = do
    ensure_thread_init
    if fresh == null then pure none else do
      store_start fresh
          (some (record { prev = null; next = null; coroutine = none; entry = entry; arg = arg }))
      s ← get
      let (made, env) = aco.create s.main_co s.share_stack fresh s.env in
          (do
            modify (λ t. record t { env = env })
            elim made [
              | none ↦ store_start fresh none >> pure none
              | some co ↦ (do
                n ← load_start fresh
                store_start fresh (some (record n { coroutine = some co }))
                unstarted_link fresh
                pure (some co))
            ])

  -- `UfsrvCoroutineResume`.
  unfoldable pub coroutine_resume :
      (aco_resume : ℕ → Cmd E (Unit {0})) → Option ℕ → Cmd E (Unit {0})
  unfolding ensure_thread_init
  coroutine_resume aco_resume none = pure tt
  coroutine_resume aco_resume (some co) = do
    ensure_thread_init
    aco_resume co
    s ← get
    if aco.is_end co s.env then change_env (aco.destroy co) else pure tt

  -- `UfsrvCoroutineYield`, where `aco_yield` is what libaco does until the coroutine goes on.
  unfoldable pub coroutine_yield : (aco_yield : Cmd E (Unit {0})) → Cmd E (Unit {0})
  coroutine_yield aco_yield = aco_yield

  -- `UfsrvCoroutineCurrent`, `UfsrvCoroutineGetArg` and `UfsrvCoroutineCurrentScheduler`.
  unfoldable pub coroutine_current : State E → Option ℕ
  coroutine_current s = aco.get_co s.env

  unfoldable pub coroutine_get_arg : State E → ℕ
  coroutine_get_arg s = aco.get_arg s.env

  unfoldable pub coroutine_current_scheduler : State E → Option ℕ
  coroutine_current_scheduler s = s.current_scheduler

  -- `UfsrvCoroutineExit`.
  unfoldable pub coroutine_exit : Cmd E (Unit {0})
  coroutine_exit = change_env aco.exit

  -- `UfsrvCoroutineIsInCoroutine`.
  unfoldable pub is_in_coroutine : State E → Bool
  is_in_coroutine s = elim (aco.get_co s.env) [
    | none ↦ false
    | some co ↦ s.initialized && elim s.main_co [ none ↦ true | some main ↦ not (co == main) ]
  ]

  -- `UfsrvCoroutineThreadCleanup`.
  unfoldable pub thread_cleanup : (fuel : ℕ) → Cmd E (Unit {0})
  unfolding free_thread_state
  thread_cleanup fuel = do s ← get; if s.initialized then free_thread_state fuel else pure tt

  -- `sResumeJob`.
  unfoldable pub resume_job :
      (aco_resume : ℕ → Cmd E (Unit {0})) → (context : Ptr) → Cmd E (Unit {0})
  unfolding coroutine_resume
  resume_job aco_resume p = do
    s ← get
    ctx ← load_resume p
    modify (λ t. record t { current_scheduler = some ctx.scheduler })
    coroutine_resume aco_resume (some ctx.coroutine)
    modify (λ t. record t { current_scheduler = s.current_scheduler })
    store_resume p none

  -- `sSpawnJob`; `fresh` is what malloc returns to UfsrvCoroutineCreate.
  unfoldable pub spawn_job :
      (aco_resume : ℕ → Cmd E (Unit {0})) → (fresh : Ptr) → (context : Ptr) → Cmd E (Unit {0})
  unfolding coroutine_create coroutine_resume
  spawn_job aco_resume fresh p = do
    s ← get
    ctx ← load_spawn p
    modify (λ t. record t { current_scheduler = some ctx.scheduler })
    made ← coroutine_create fresh (some ctx.entry) ctx.arg_ptr
    coroutine_resume aco_resume made
    modify (λ t. record t { current_scheduler = s.current_scheduler })
    store_spawn p none

-- `submit` is UfsrvSchedulerSubmit of the job below on the context at an address.
module _ {E : Type 0} (submit : (scheduler : ℕ) → (context : Ptr) → Cmd E Bool) where
  -- `UfsrvCoroutineSubmitResume`.
  unfoldable pub submit_resume : (fresh : Ptr) → (scheduler coroutine : Option ℕ) → Cmd E Bool
  submit_resume fresh none co = pure false
  submit_resume fresh (some sched) none = pure false
  submit_resume fresh (some sched) (some co) = if fresh == null then pure false else do
    store_resume fresh (some (record { scheduler = sched; coroutine = co }))
    accepted ← submit sched fresh
    if accepted then pure true else store_resume fresh none >> pure false

  -- `UfsrvCoroutineSpawn`.
  unfoldable pub spawn : (fresh : Ptr) → (scheduler entry : Option ℕ) → (arg : ℕ) → Cmd E (Unit {0})
  spawn fresh none entry arg = pure tt
  spawn fresh (some sched) none arg = pure tt
  spawn fresh (some sched) (some entry) arg = if fresh == null then pure tt else do
    store_spawn fresh (some (record { scheduler = sched; entry = entry; arg_ptr = arg }))
    accepted ← submit sched fresh
    if accepted then pure tt else store_spawn fresh none
