-- ===== src/Tests/Coroutines.antt =====
-- A thread with two coroutines that have not started, over a libaco that leaves a trace.
use ufsrvrxlib.Base.{
  ℕ, ◌+◌, ◌≡◌, refl, true, false, none, some, List, [], ◌∷◌, ◌++◌, All, arith, ◌==◌, if◌then◌else◌,
}
use ufsrvrxlib.Coroutine.Heap.{Ptr, null, Start, State, SpawnContext, Aco, Cmd, ok, change_env}
use ufsrvrxlib.Coroutine.Roster.{Created, Roster, Distinct}
use ufsrvrxlib.Coroutine.Unstarted.{Reclaimed, reclaim_unstarted-Reclaimed}
use ufsrvrxlib.Coroutine.Create.{Outcome, coroutine_create-Outcome, thread_cleanup_lem}
use ufsrvrxlib.Coroutine.Trampoline.{Started, trampoline_start-Started}
use ufsrvrxlib.Coroutine.Spawned.{Finished, spawn_job-Finished}
use ufsrvrxlib.Coroutine.{thread_cleanup}

abbrev aco : Aco (List ℕ)
aco = record {
  register_destructor = λ env. env;
  thread_init = λ env. env;
  create_main = λ env. (some 50, env);
  share_stack_new = λ env. (some 60, env);
  share_stack_destroy = λ st env. env ++ st ∷ [];
  create = λ main share arg env. (some (arg + 70), env);
  destroy = λ co env. env ++ co ∷ [];
  set_arg = λ arg env. env;
  get_co = λ env. some 50;
  get_arg = λ env. 4;
  exit = λ env. env ++ 99 ∷ [];
  is_end = λ co env. true;
}

abbrev newer : Created
newer = record { at = 2; coroutine = 72; entry = 100; arg = 7 }

abbrev older : Created
older = record { at = 3; coroutine = 73; entry = 101; arg = 8 }

abbrev node_of : Created → (prev next : Ptr) → Start
node_of e prev next = record {
  prev = prev;
  next = next;
  coroutine = some e.coroutine;
  entry = e.entry;
  arg = e.arg;
}

abbrev thread : State (List ℕ)
thread = record {
  main_co = some 50;
  share_stack = some 60;
  initialized = true;
  current_scheduler = none;
  unstarted_head = 2;
  starts = λ p.
      if p == 2
      then some (node_of newer 0 3)
      else if p == 3
      then some (node_of older 2 0)
      else none;
  resumes = λ p. none;
  spawns = λ p. none;
  env = [];
}

abbrev both : List Created
both = newer ∷ older ∷ []

thread-Roster : Roster thread.starts null 2 both
thread-Roster = (
  refl,
  omega arith,
  (
    node_of newer 0 3,
    refl,
    record { back = refl; coroutine = refl; entry = refl; arg = refl },
    (
      refl,
      omega arith,
      (
        node_of older 2 0,
        refl,
        record { back = refl; coroutine = refl; entry = refl; arg = refl },
        refl,
      ),
    ),
  ),
)

both-Distinct : Distinct both
both-Distinct = ((omega arith, tt), (tt, tt))

reclaim_unstarted-Reclaimed_example : Reclaimed aco 3 thread both
reclaim_unstarted-Reclaimed_example =
    reclaim_unstarted-Reclaimed aco 3 thread both thread-Roster both-Distinct (omega arith)

coroutine_create-Outcome_example : Outcome aco thread 4 102 9 both (some 74, [])
coroutine_create-Outcome_example =
    coroutine_create-Outcome aco thread 4 102 9 both (omega arith) refl refl thread-Roster
      both-Distinct

thread_cleanup_lem_example :
    (t : State (List ℕ)) × (thread_cleanup aco 3 thread ≡ ok tt t)
    × (t.env ≡ 72 ∷ 73 ∷ 60 ∷ 50 ∷ [])
    × All (λ e. t.starts e.at ≡ none) both
    × (t.unstarted_head ≡ null)
    × (t.share_stack ≡ none)
    × (t.main_co ≡ none)
    × (t.initialized ≡ false)
thread_cleanup_lem_example =
    thread_cleanup_lem aco 3 thread both refl thread-Roster both-Distinct (omega arith)

trampoline_start-Started_example : Started aco thread older (newer ∷ [])
trampoline_start-Started_example =
    trampoline_start-Started aco thread (newer ∷ []) older [] thread-Roster both-Distinct

abbrev request : SpawnContext
request = record { scheduler = 11; entry = 102; arg_ptr = 9 }

abbrev worker : State (List ℕ)
worker = record thread { spawns = λ p. if p == 6 then some request else none }

-- The switch to a coroutine and the run of an entry leave their names.
abbrev entered : ℕ → List ℕ → List ℕ
entered co env = env ++ co ∷ []

abbrev entry_run : ℕ → Cmd (List ℕ) (Unit {0})
entry_run entry = change_env (λ env. env ++ entry ∷ [])

spawn_job-Finished_example : Finished aco entered entry_run worker 6 4 74 both (74 ∷ 102 ∷ [])
spawn_job-Finished_example =
    spawn_job-Finished aco entered entry_run worker 6 4 74 request both [] (74 ∷ 102 ∷ [])
      (omega arith) refl (omega arith) refl refl thread-Roster both-Distinct refl refl
      (λ v given sched. rw (given) refl) refl
