-- ===== src/Future/Combinators/Shortage.antt =====
-- What an operator of one future allocates, and which of it may fail.
use ufsrvrxlib.Base.{◌≡◌, ◌≢◌, ◌⊎◌, inl, inr, Bool-cases, none, some, arith, ◌==◌}
use ufsrvrxlib.Future.Interface.{TreiberStack}
use ufsrvrxlib.Future.Heap.{Ptr, null}
use ufsrvrxlib.Future.Combinators.{Fresh}

pub null-cases : (p : Ptr) → (p ≡ null) ⊎ (p ≢ null)
null-cases p = elim (Bool-cases (p == null)) [
  | inl is ↦ inl (ground arith)
  | inr is ↦ inr (λ e. ground arith)
]

module _ {S : Type 0} where
  -- One of the allocations of UfsrvPromiseCreate fails, or all are granted.
  abbrev pub CreationFails : Fresh S → Type 0
  CreationFails fresh =
      (fresh.future ≡ null)
      ⊎ (fresh.promise ≡ null)
      ⊎ (fresh.continuations ≡ none)
      ⊎ (fresh.waiters ≡ none)

  -- Some allocation fails.
  abbrev pub IsDenied : Fresh S → Type 0
  IsDenied fresh = CreationFails fresh ⊎ (fresh.context ≡ null) ⊎ (fresh.node ≡ null)

module _ {S : Type 0} (stack : TreiberStack S) where
  -- The promise and its future can be made, but not the context, or not the node of the continuation.
  pub record IsHalfDenied (fresh : Fresh S) : Type 0 where
    pub future : fresh.future ≢ null
    pub promise : fresh.promise ≢ null
    pub continuations : fresh.continuations ≡ some stack.create
    pub waiters : fresh.waiters ≡ some stack.create

  pub creation-cases :
      (fresh : Fresh S)
      → (fresh.future ≡ null) ⊎ (fresh.future ≢ null)
      → (fresh.promise ≡ null) ⊎ (fresh.promise ≢ null)
      → (fresh.continuations ≡ some stack.create) ⊎ (fresh.continuations ≡ none)
      → (fresh.waiters ≡ some stack.create) ⊎ (fresh.waiters ≡ none)
      → CreationFails fresh ⊎ IsHalfDenied fresh
  creation-cases fresh (inl e) p c w = inl (inl e)
  creation-cases fresh (inr f) (inl e) c w = inl (inr (inl e))
  creation-cases fresh (inr f) (inr p) (inr e) w = inl (inr (inr (inl e)))
  creation-cases fresh (inr f) (inr p) (inl c) (inr e) = inl (inr (inr (inr e)))
  creation-cases fresh (inr f) (inr p) (inl c) (inl w) =
      inr (record { future = f; promise = p; continuations = c; waiters = w })

  pub half-cause :
      (fresh : Fresh S)
      → IsHalfDenied fresh
      → IsDenied fresh
      → (fresh.context ≡ null) ⊎ (fresh.node ≡ null)
  half-cause fresh g (inl (inl e)) = ground (arith, g.future)
  half-cause fresh g (inl (inr (inl e))) = ground (arith, g.promise)
  half-cause fresh g (inl (inr (inr (inl e)))) = ground (arith, g.continuations)
  half-cause fresh g (inl (inr (inr (inr e)))) = ground (arith, g.waiters)
  half-cause fresh g (inr cause) = cause
