-- ===== src/Future/Heap.antt =====
-- Futures, promises and stack nodes at addresses, and commands that read and write them.
pub use ufsrvrxlib.Base.Memory.{Ptr, null, write}
use ufsrvrxlib.Base.{ℕ, Bool, Option, none, some, ◌==◌, if◌then◌else◌}
use ufsrvrxlib.Future.Interface.{FutureResult}

-- `struct UfsrvFuture`; `is_ready` is `state == UFSRV_FUTURE_READY`.
pub record Future (S : Type 0) : Type 0 where
  pub is_completed : Bool
  pub is_consumed : Bool
  pub is_ready : Bool
  pub result : FutureResult
  pub continuations : S
  pub waiters : S
  pub refcount : ℕ
  pub cancel_token : Option ℕ
  pub cancel_handle : Option ℕ

-- `struct UfsrvPromise`.
pub record Promise : Type 0 where
  pub future : Ptr
  pub is_fulfilled : Bool

-- A continuation function: one of the program's, by its address, or one of ufsrv_future.c.
pub data Fn : Type 0 where
  user_fn : ℕ → Fn
  move_chain_fn map_fn flat_map_fn on_error_fn do_on_success_fn : Fn
  all_fn any_fn zip_first_fn zip_second_fn : Fn

-- `struct UfsrvContinuation`.
pub record Continuation (B : Type 0) : Type 0 where
  pub base : B
  pub fn : Fn
  pub user : ℕ

-- `struct UfsrvWaiter`; `block_fd` is `none` for -1.
pub record Waiter (B : Type 0) : Type 0 where
  pub base : B
  pub coroutine : Option ℕ
  pub scheduler : ℕ
  pub block_fd : Option ℕ
  pub cancel_handle : Option ℕ

-- `struct UfsrvMapContext`.
pub record MapContext : Type 0 where
  pub out_promise : Ptr
  pub mapper : ℕ
  pub user : ℕ
  pub free_value : Option ℕ

-- `struct UfsrvFlatMapContext`.
pub record FlatMapContext : Type 0 where
  pub out_promise : Ptr
  pub mapper : ℕ
  pub user : ℕ
  pub token : Option ℕ

-- `struct UfsrvOnErrorContext`.
pub record OnErrorContext : Type 0 where
  pub out_promise : Ptr
  pub recovery : ℕ
  pub user : ℕ
  pub in_future : Ptr

-- `struct UfsrvDoOnSuccessContext`.
pub record DoOnSuccessContext : Type 0 where
  pub out_promise : Ptr
  pub action : ℕ
  pub user : ℕ
  pub in_future : Ptr

-- `struct UfsrvAllContext`.
pub record AllContext : Type 0 where
  pub out_promise : Ptr
  pub remaining : ℕ
  pub failed : Bool

-- `struct UfsrvAnyContext`.
pub record AnyContext : Type 0 where
  pub out_promise : Ptr
  pub claimed : Bool
  pub remaining : ℕ

-- `struct UfsrvAnyRegistration`.
pub record AnyRegistration : Type 0 where
  pub ctx : Ptr
  pub in_future : Ptr

-- `struct UfsrvZipContext`.
pub record ZipContext : Type 0 where
  pub out_promise : Ptr
  pub zipper : ℕ
  pub user : ℕ
  pub first_future : Ptr
  pub second_future : Ptr
  pub first : FutureResult
  pub second : FutureResult
  pub remaining : ℕ
  pub free_value : Option ℕ

-- What a context pointer of the combinators points to.
pub data Context : Type 0 where
  a_map : MapContext → Context
  a_flat_map : FlatMapContext → Context
  an_on_error : OnErrorContext → Context
  a_do_on_success : DoOnSuccessContext → Context
  an_all : AllContext → Context
  an_any : AnyContext → Context
  a_registration : AnyRegistration → Context
  a_zip : ZipContext → Context

pub record State (E S B : Type 0) : Type 0 where
  pub futures : Ptr → Option (Future S)
  pub promises : Ptr → Option Promise
  pub conts : Ptr → Option (Continuation B)
  pub waiting : Ptr → Option (Waiter B)
  pub contexts : Ptr → Option Context
  pub env : E

-- `fault` is an access through NULL or to memory that is not allocated, `aborted` a call of abort() or a
-- failed assert.
pub data Run (E S B A : Type 0) : Type 0 where
  ok : A → State E S B → Run E S B A
  fault : Run E S B A
  aborted : Run E S B A
  out_of_fuel : Run E S B A

abbrev pub Cmd : (E S B : Type 0) → Type 0 → Type 0
Cmd E S B A = State E S B → Run E S B A

-- What the code calls that acts on futures too: `run` calls a continuation function, `some r` where it
-- has written `r` over the result that it was handed; `unregister` is UfsrvCancellationTokenUnregister,
-- which calls the release hook of the registration.
pub record Call (E S B : Type 0) : Type 0 where
  pub run : Fn → (user : ℕ) → FutureResult → Cmd E S B (Option FutureResult)
  pub unregister : (handle : ℕ) → Cmd E S B (Unit {0})

module _ {E S B : Type 0} where
  abbrev pub pure : {A : Type 0} → A → Cmd E S B A
  pure = ok

  abbrev pub and_then : {A C : Type 0} → Run E S B A → (A → Cmd E S B C) → Run E S B C
  and_then (ok a s) k = k a s
  and_then fault k = fault
  and_then aborted k = aborted
  and_then out_of_fuel k = out_of_fuel

  infixl 5 ◌>>=◌ ◌>>◌
  abbrev pub ◌>>=◌ : {A C : Type 0} → Cmd E S B A → (A → Cmd E S B C) → Cmd E S B C
  m >>= k = λ s. and_then (m s) k

  abbrev pub ◌>>◌ : {C : Type 0} → Cmd E S B (Unit {0}) → Cmd E S B C → Cmd E S B C
  m >> n = m >>= λ _. n

  abbrev pub load_future : Ptr → Cmd E S B (Future S)
  load_future p s =
      if p == null then fault else elim (s.futures p) [ none ↦ fault | some f ↦ ok f s ]

  abbrev pub store_future : Ptr → Option (Future S) → Cmd E S B (Unit {0})
  store_future p f s = ok tt (record s { futures = write s.futures p f })

  abbrev pub load_promise : Ptr → Cmd E S B Promise
  load_promise p s =
      if p == null then fault else elim (s.promises p) [ none ↦ fault | some f ↦ ok f s ]

  abbrev pub store_promise : Ptr → Option Promise → Cmd E S B (Unit {0})
  store_promise p f s = ok tt (record s { promises = write s.promises p f })

  abbrev pub load_cont : Ptr → Cmd E S B (Continuation B)
  load_cont p s = if p == null then fault else elim (s.conts p) [ none ↦ fault | some f ↦ ok f s ]

  abbrev pub store_cont : Ptr → Option (Continuation B) → Cmd E S B (Unit {0})
  store_cont p f s = ok tt (record s { conts = write s.conts p f })

  abbrev pub load_waiter : Ptr → Cmd E S B (Waiter B)
  load_waiter p s =
      if p == null then fault else elim (s.waiting p) [ none ↦ fault | some f ↦ ok f s ]

  abbrev pub store_waiter : Ptr → Option (Waiter B) → Cmd E S B (Unit {0})
  store_waiter p f s = ok tt (record s { waiting = write s.waiting p f })

  abbrev pub load_context : Ptr → Cmd E S B Context
  load_context p s =
      if p == null then fault else elim (s.contexts p) [ none ↦ fault | some c ↦ ok c s ]

  abbrev pub store_context : Ptr → Option Context → Cmd E S B (Unit {0})
  store_context p c s = ok tt (record s { contexts = write s.contexts p c })

  abbrev pub change_env : (E → E) → Cmd E S B (Unit {0})
  change_env f s = ok tt (record s { env = f s.env })
