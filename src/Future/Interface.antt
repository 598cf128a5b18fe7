-- ===== src/Future/Interface.antt =====
-- What the future code calls and does not implement itself: uflib's lock-free stack and its nodes
-- (`lockless_treiber_stack.h`), and the rest of the program.
use ufsrvrxlib.Base.{ℕ, suc, ◌≡◌, Bool, true, false, Option, none, some, List, [], ◌∷◌}
use ufsrvrxlib.Base.Int.{ℤ}

-- The stack. `push` gives `none` where the stack is closed and the push is refused.
pub record TreiberStack (S : Type 0) : Type 0 where
  pub create : S
  pub push : S → ℕ → Option S
  pub steal_all_and_close : S → List ℕ × S
  pub items : S → List ℕ
  pub is_closed : S → Bool
  pub create-empty : (items create ≡ []) × (is_closed create ≡ false)
  pub push-closed : (s : S) (p : ℕ) → is_closed s ≡ true → push s p ≡ none
  pub push-open :
      (s : S) (p : ℕ)
      → is_closed s ≡ false
      → (r : S) × (push s p ≡ some r) × (items r ≡ p ∷ items s) × (is_closed r ≡ false)
  pub steal-items : (s : S) → (steal_all_and_close s).0 ≡ items s
  pub steal-closes :
      (s : S)
      → (items (steal_all_and_close s).1 ≡ []) × (is_closed (steal_all_and_close s).1 ≡ true)

-- The base of a stack node: a reference count, two at first, for the pusher and the stack, and a
-- claim that is granted once. `release` says whether the reference was the last.
pub record NodeBase (B : Type 0) : Type 0 where
  pub init : B
  pub claim : B → Bool × B
  pub release : B → Bool × B
  pub retain : B → B
  pub refs : B → ℕ
  pub claimed : B → Bool
  pub init-fresh : (refs init ≡ 2) × (claimed init ≡ false)
  pub claim-once :
      (b : B)
      → claimed b ≡ false
      → ((claim b).0 ≡ true) × (claimed (claim b).1 ≡ true) × (refs (claim b).1 ≡ refs b)
  pub claim-again :
      (b : B)
      → claimed b ≡ true
      → ((claim b).0 ≡ false) × (claimed (claim b).1 ≡ true) × (refs (claim b).1 ≡ refs b)
  pub retain-more : (b : B) → (refs (retain b) ≡ suc (refs b)) × (claimed (retain b) ≡ claimed b)
  pub release-last : (b : B) → refs b ≡ 1 → (release b).0 ≡ true
  pub release-more :
      (b : B) (n : ℕ)
      → refs b ≡ suc (suc n)
      → ((release b).0 ≡ false) × (refs (release b).1 ≡ suc n) × (claimed (release b).1 ≡ claimed b)

-- `UfsrvFutureResult`; a pointer or a function pointer that is NULL is `none`.
pub record FutureResult : Type 0 where
  pub error : ℤ
  pub value : Option ℕ
  pub free_value : Option ℕ

-- What the code does to the rest of the program, `E`. `deliver` is a continuation of the program's own
-- that acts on `E` only; it may take the value out of the result that it is handed, so that result is
-- returned too. `submit_resume` gives `none` where
-- UfsrvCoroutineSubmitResume refuses.
pub record Host (E : Type 0) : Type 0 where
  pub deliver : (fn user : ℕ) → FutureResult → E → FutureResult × E
  pub free_value : (destructor value : ℕ) → E → E
  pub submit_resume : (scheduler coroutine : ℕ) → E → Option E
  pub write_fd : ℕ → E → E
  pub close_fd : ℕ → E → E
  pub token_retain : ℕ → E → E
  pub token_destroy : ℕ → E → E
  pub token_unregister : ℕ → E → E
