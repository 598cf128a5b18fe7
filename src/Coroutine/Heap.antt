-- ===== src/Coroutine/Heap.antt =====
-- The coroutine state of one thread, and commands that read and write it.
pub use ufsrvrxlib.Base.Memory.{Ptr, null, write}
use ufsrvrxlib.Base.{ℕ, Bool, Option, none, some, ◌==◌, if◌then◌else◌}

-- `struct UfsrvCoroutineStart`. A coroutine is named by its address; `none` is NULL.
pub record Start : Type 0 where
  pub prev : Ptr
  pub next : Ptr
  pub coroutine : Option ℕ
  pub entry : ℕ
  pub arg : ℕ

-- `struct UfsrvResumeContext`.
pub record ResumeContext : Type 0 where
  pub scheduler : ℕ
  pub coroutine : ℕ

-- `struct UfsrvSpawnContext`.
pub record SpawnContext : Type 0 where
  pub scheduler : ℕ
  pub entry : ℕ
  pub arg_ptr : ℕ

-- The thread's variables and its heap; `env` is the state of libaco and the rest of the program.
pub record State (E : Type 0) : Type 0 where
  pub main_co : Option ℕ
  pub share_stack : Option ℕ
  pub initialized : Bool
  pub current_scheduler : Option ℕ
  pub unstarted_head : Ptr
  pub starts : Ptr → Option Start
  pub resumes : Ptr → Option ResumeContext
  pub spawns : Ptr → Option SpawnContext
  pub env : E

-- libaco: its calls, and what they do. `create` gives `none` for NULL.
pub record Aco (E : Type 0) : Type 0 where
  pub register_destructor : E → E
  pub thread_init : E → E
  pub create_main : E → Option ℕ × E
  pub share_stack_new : E → Option ℕ × E
  pub share_stack_destroy : ℕ → E → E
  pub create : (main share : Option ℕ) → (arg : Ptr) → E → Option ℕ × E
  pub destroy : ℕ → E → E
  pub set_arg : ℕ → E → E
  pub get_co : E → Option ℕ
  pub get_arg : E → ℕ
  pub exit : E → E
  pub is_end : ℕ → E → Bool

-- `fault` is an access through NULL or to memory that is not allocated.
pub data Run (E A : Type 0) : Type 0 where
  ok : A → State E → Run E A
  fault : Run E A
  out_of_fuel : Run E A

abbrev pub Cmd : Type 0 → Type 0 → Type 0
Cmd E A = State E → Run E A

module _ {E : Type 0} where
  abbrev pub pure : {A : Type 0} → A → Cmd E A
  pure = ok

  abbrev pub and_then : {A B : Type 0} → Run E A → (A → Cmd E B) → Run E B
  and_then (ok a s) k = k a s
  and_then fault k = fault
  and_then out_of_fuel k = out_of_fuel

  infixl 5 ◌>>=◌ ◌>>◌
  abbrev pub ◌>>=◌ : {A B : Type 0} → Cmd E A → (A → Cmd E B) → Cmd E B
  m >>= k = λ s. and_then (m s) k

  abbrev pub ◌>>◌ : {B : Type 0} → Cmd E (Unit {0}) → Cmd E B → Cmd E B
  m >> n = m >>= λ _. n

  abbrev pub get : Cmd E (State E)
  get s = ok s s

  abbrev pub modify : (State E → State E) → Cmd E (Unit {0})
  modify f s = ok tt (f s)

  abbrev pub change_env : (E → E) → Cmd E (Unit {0})
  change_env f = modify (λ s. record s { env = f s.env })

  abbrev pub set_head : Ptr → Cmd E (Unit {0})
  set_head p = modify (λ s. record s { unstarted_head = p })

  abbrev pub load_start : Ptr → Cmd E Start
  load_start p s = if p == null then fault else elim (s.starts p) [ none ↦ fault | some n ↦ ok n s ]

  abbrev pub store_start : Ptr → Option Start → Cmd E (Unit {0})
  store_start p n = modify (λ s. record s { starts = write s.starts p n })

  abbrev pub load_resume : Ptr → Cmd E ResumeContext
  load_resume p s =
      if p == null then fault else elim (s.resumes p) [ none ↦ fault | some n ↦ ok n s ]

  abbrev pub store_resume : Ptr → Option ResumeContext → Cmd E (Unit {0})
  store_resume p n = modify (λ s. record s { resumes = write s.resumes p n })

  abbrev pub load_spawn : Ptr → Cmd E SpawnContext
  load_spawn p s = if p == null then fault else elim (s.spawns p) [ none ↦ fault | some n ↦ ok n s ]

  abbrev pub store_spawn : Ptr → Option SpawnContext → Cmd E (Unit {0})
  store_spawn p n = modify (λ s. record s { spawns = write s.spawns p n })
