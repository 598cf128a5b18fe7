-- ===== src/Base/Memory.antt =====
-- Addresses, and a heap as a function of them.
use Prim.Native.Nat.{ℕ}
use mathlib.Core.Path.{◌≡◌}
use mathlib.Core.Logic.{◌≢◌}
use mathlib.Core.Bool.{true, false}
use native.Mathlib.Omega.{arith}
use ufsrvrxlib.Base.Tests.{◌==◌, if◌then◌else◌}

abbrev pub Ptr : Type 0
Ptr = ℕ

abbrev pub null : Ptr
null = 0

abbrev pub write {ℓ} : {A : Type ℓ} → (Ptr → A) → Ptr → A → Ptr → A
write h p c q = if q == p then c else h q

pub not_null : (p : Ptr) → p ≢ null → (p == null) ≡ false
not_null p h = ground arith

pub same_ptr : (p : Ptr) → (p == p) ≡ true
same_ptr p = ground arith

pub other_ptr : (p q : Ptr) → p ≢ q → (p == q) ≡ false
other_ptr p q h = ground arith
