-- ===== src/Coroutine/Spawned.antt =====
-- sSpawnJob: a coroutine from its spawn to its end.
use ufsrvrxlib.Base.Memory.{not_null}
use ufsrvrxlib.Base.{ℕ, ◌≡◌, refl, ap, ◌∙◌, ◌≢◌, true, none, some, List, [], arith}
use ufsrvrxlib.Coroutine.Heap.{
  Ptr, null, SpawnContext, State, Aco, Cmd, ok, write, change_env, ◌>>◌,
}
use ufsrvrxlib.Coroutine.Roster.{Created, Roster, Distinct}
use ufsrvrxlib.Coroutine.Create.{create-Outcome}
use ufsrvrxlib.Coroutine.Trampoline.{Started, trampoline_start-Started}
use ufsrvrxlib.Coroutine.{
  coroutine_create, coroutine_resume, trampoline_start, trampoline, spawn_job,
}

-- `enter` is libaco's switch to a coroutine, which runs its trampoline until it exits.
module _ {E : Type 0} (aco : Aco E) (enter : ℕ → E → E) (run_entry : ℕ → Cmd E (Unit {0})) where
  abbrev pub aco_resume : ℕ → Cmd E (Unit {0})
  aco_resume co = change_env (enter co) >> trampoline aco run_entry

  resume-run :
      (t v : State E) (co a entry : ℕ) (env' : E)
      → t.initialized ≡ true
      → aco.get_arg (enter co t.env) ≡ a
      → trampoline_start aco a (record t { env = enter co t.env }) ≡ ok entry v
      → run_entry entry v ≡ ok tt (record v { env = env' })
      → aco.is_end co (aco.exit env') ≡ true
      → coroutine_resume aco aco_resume (some co) t
        ≡ ok tt (record v { env = aco.destroy co (aco.exit env') })
  unfolding coroutine_resume trampoline
  resume-run t v co a entry env' up arg begins runs ends = simp (up, arg, begins, runs, ends)

  spawn-run :
      (s t v : State E) (p a co : ℕ) (ctx : SpawnContext)
      → p ≢ null
      → s.spawns p ≡ some ctx
      → coroutine_create aco a
          (some ctx.entry)
          ctx.arg_ptr
          (record s { current_scheduler = some ctx.scheduler })
        ≡ ok (some co) t
      → coroutine_resume aco aco_resume (some co) t ≡ ok tt v
      → spawn_job aco aco_resume a p s
        ≡ ok tt
            (record v { current_scheduler = s.current_scheduler; spawns = write v.spawns p none })
  unfolding spawn_job
  spawn-run s t v p a co ctx hp at made ran = simp (not_null p hp, at, made, ran)

  -- What a spawn job leaves behind once its coroutine has ended: its node `a` and its context `p` are freed,
  -- and `es` are still the coroutines that have not started.
  pub record Finished (s : State E) (p a co : Ptr) (es : List Created) (env' : E) : Type 0 where
    pub last : State E
    pub run : spawn_job aco aco_resume a p s ≡ ok tt last
    pub destroyed : last.env ≡ aco.destroy co (aco.exit env')
    pub listed : Roster last.starts null last.unstarted_head es
    pub node_freed : last.starts a ≡ none
    pub context_freed : last.spawns p ≡ none
    pub scheduler : last.current_scheduler ≡ s.current_scheduler

  -- `sSpawnJob`, on an initialised thread with a well-formed list of coroutines that have not started, where
  -- libaco makes the coroutine `co` for the new node `a`, and on its resumption hands it that node. Its
  -- entry runs with the argument of the spawn and with the scheduler of the spawn as the current one, and
  -- ends. Then the job ends too: it has destroyed the coroutine after its exit, freed the node and the
  -- context, restored the current scheduler, and left the list with the same coroutines.
  pub spawn_job-Finished :
      (s : State E) (p a co : Ptr) (ctx : SpawnContext) (es : List Created) (env env' : E)
      → p ≢ null
      → s.spawns p ≡ some ctx
      → a ≢ null
      → s.initialized ≡ true
      → s.starts a ≡ none
      → Roster s.starts null s.unstarted_head es
      → Distinct es
      → aco.create s.main_co s.share_stack a s.env ≡ (some co, env)
      → aco.get_arg (enter co env) ≡ a
      → ((v : State E)
          → v.env ≡ aco.set_arg ctx.arg_ptr (enter co env)
          → v.current_scheduler ≡ some ctx.scheduler
          → run_entry ctx.entry v ≡ ok tt (record v { env = env' }))
      → aco.is_end co (aco.exit env') ≡ true
      → Finished s p a co es env'
  spawn_job-Finished s p a co ctx es env env' hp at ha up unused ch d made arg runs ends =
      let s1 : State E = record s { current_scheduler = some ctx.scheduler } in
      let e : Created = record { at = a; coroutine = co; entry = ctx.entry; arg = ctx.arg_ptr } in
      let (t, ran, listed, apart, only) =
        create-Outcome aco s1 a ctx.entry ctx.arg_ptr es (some co, env) ha up unused ch d made in
      let t1 : State E = record t { env = enter co t.env } in
      let b : Started aco t1 e es = trampoline_start-Started aco t1 [] e es listed apart in
      let t_env : t.env ≡ env = ap (λ u. u.env) only in
      let t_up : t.initialized ≡ true = ap (λ u. u.initialized) only ∙ up in
      let kept : b.last.current_scheduler ≡ some ctx.scheduler =
        ap (λ u. u.current_scheduler) b.only ∙ ap (λ u. u.current_scheduler) only in
      let v : State E = record (b.last) { env = aco.destroy co (aco.exit env') } in
      let resumed : coroutine_resume aco aco_resume (some co) t ≡ ok tt v =
        resume-run t b.last co a ctx.entry env' t_up (rw t_env arg) b.run
          (runs b.last (b.given ∙ ap (λ x. aco.set_arg ctx.arg_ptr (enter co x)) t_env) kept)
          ends in
      record {
        last = record v { current_scheduler = s.current_scheduler; spawns = write v.spawns p none };
        run = spawn-run s t v p a co ctx hp at ran resumed;
        destroyed = refl;
        listed = b.listed;
        node_freed = b.freed;
        context_freed = ground arith;
        scheduler = refl;
      }
