-- ===== src/Cancellation/Heap.antt =====
-- Tokens and callback nodes at addresses, and commands that read and write them.
pub use ufsrvrxlib.Base.Memory.{Ptr, null, write}
use ufsrvrxlib.Base.{ℕ, Bool, Option, none, some, ◌==◌, if◌then◌else◌}

-- `struct UfsrvCancellationCallback`; a function pointer is an address.
pub record Node : Type 0 where
  pub prev : Ptr
  pub next : Ptr
  pub token : Ptr
  pub refcount : ℕ
  pub active : Bool
  pub claimed : Bool
  pub fn : ℕ
  pub context : ℕ
  pub release_context : Option ℕ

-- `struct UfsrvCancellationToken`.
pub record Token : Type 0 where
  pub refcount : ℕ
  pub is_cancelled : Bool
  pub head : Ptr

-- `env` is the rest of the program, which the callbacks act on.
pub record State (E : Type 0) : Type 0 where
  pub nodes : Ptr → Option Node
  pub tokens : Ptr → Option Token
  pub env : E

-- `fault` is an access through NULL or to memory that is not allocated.
pub data Run (E A : Type 0) : Type 0 where
  ok : A → State E → Run E A
  fault : Run E A
  out_of_fuel : Run E A

abbrev pub Cmd : Type 0 → Type 0 → Type 0
Cmd E A = State E → Run E A

abbrev pub Calls : Type 0 → Type 0
Calls E = ℕ → ℕ → E → E

module _ {E : Type 0} where
  abbrev pub pure : {A : Type 0} → A → Cmd E A
  pure = ok

  abbrev pub and_then : {A B : Type 0} → Run E A → (A → Cmd E B) → Run E B
  and_then (ok a s) k = k a s
  and_then fault k = fault
  and_then out_of_fuel k = out_of_fuel

  infixl 5 ◌>>=◌ ◌>>◌
  abbrev pub ◌>>=◌ : {A B : Type 0} → Cmd E A → (A → Cmd E B) → Cmd E B
  m >>= k = λ s. and_then (m s) k

  abbrev pub ◌>>◌ : {B : Type 0} → Cmd E (Unit {0}) → Cmd E B → Cmd E B
  m >> n = m >>= λ _. n

  abbrev pub load_node : Ptr → Cmd E Node
  load_node p s = if p == null then fault else elim (s.nodes p) [ none ↦ fault | some n ↦ ok n s ]

  abbrev pub store_node : Ptr → Node → Cmd E (Unit {0})
  store_node p n s = ok tt (record s { nodes = write s.nodes p (some n) })

  abbrev pub free_node : Ptr → Cmd E (Unit {0})
  free_node p s = ok tt (record s { nodes = write s.nodes p none })

  abbrev pub load_token : Ptr → Cmd E Token
  load_token p s = if p == null then fault else elim (s.tokens p) [ none ↦ fault | some k ↦ ok k s ]

  abbrev pub store_token : Ptr → Token → Cmd E (Unit {0})
  store_token p k s = ok tt (record s { tokens = write s.tokens p (some k) })

  abbrev pub free_token : Ptr → Cmd E (Unit {0})
  free_token p s = ok tt (record s { tokens = write s.tokens p none })

  abbrev pub call_fn : Calls E → ℕ → ℕ → Cmd E (Unit {0})
  call_fn call f c s = ok tt (record s { env = call f c s.env })
