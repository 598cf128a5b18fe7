-- ===== src/Future/Race/Returns.antt =====
-- src/ufsrv_future/ufsrv_future.c: the end of a wait.
use ufsrvrxlib.Base.{
  ℕ, ◌+◌, ◌≤◌, ◌≡◌, refl, Bool, inl, inr, ◌∷◌, ◌++◌, arith, count, count-middle, count-split,
  if◌then◌else◌, Bool-cases,
}
use ufsrvrxlib.Future.Interface.{TreiberStack, FutureResult}
use ufsrvrxlib.Future.Race.{Shared, Waits, resume, give_up, Reached}
use ufsrvrxlib.Future.Race.Wakes.{count_returns, IsAttended, Reached-IsAttended}

module _ {S : Type 0} (stack : TreiberStack S)
    (after : ℕ → Bool → FutureResult → FutureResult × Bool) (x : ℕ) where
  -- An action of its own ends the wait, with ECANCELED where its token is cancelled and with a result
  -- otherwise, and it is not blocked any more.
  abbrev pub CanReturn : Shared S → Type 0
  CanReturn s =
      (t : Shared S) × Waits stack after s t
      × (count x t.blocked ≡ 0)
      × (count x t.gave_up ≡ (if s.token_cancelled x then 1 else 0))
      × (count_returns x t.returned ≡ (if s.token_cancelled x then 0 else 1))

  pub record IsServed (s : Shared S) : Type 0 where
    pub attended : IsAttended stack after x s
    pub can_return : 1 ≤ count x s.blocked → 1 ≤ count x s.woken + count x s.cancelled → CanReturn s

  IsAttended-CanReturn :
      (s : Shared S)
      → IsAttended stack after x s
      → 1 ≤ count x s.blocked
      → 1 ≤ count x s.woken + count x s.cancelled
      → CanReturn s
  IsAttended-CanReturn s v hb hw =
      let (xs, (ys, q)) = count-split x s.blocked hb in
      elim (Bool-cases (s.token_cancelled x)) [
        | inl flag ↦ (
          record s { blocked = xs ++ ys; gave_up = x ∷ s.gave_up },
          give_up xs ys x q hw flag refl,
          ground (arith, v.placed, v.single, count-middle x x xs ys),
          ground (arith, v.placed, v.single, count-middle x x xs ys),
          ground (arith, v.placed, v.single, count-middle x x xs ys),
        )
        | inr flag ↦ (
          record s { blocked = xs ++ ys; returned = (x, s.result) ∷ s.returned },
          resume xs ys x q hw flag refl,
          ground (arith, v.placed, v.single, count-middle x x xs ys),
          ground (arith, v.placed, v.single, count-middle x x xs ys),
          ground (arith, v.placed, v.single, count-middle x x xs ys),
        )
      ]

  -- In every reachable state a wait that began is in exactly one place: it has not read the state yet, is
  -- about to push its waiter, is blocked, or has returned, and then once, with a result or with ECANCELED. Its
  -- waiter has been woken, or is about to be, by nobody while it is unclaimed and by exactly one, the winner
  -- or a cancellation, once it is claimed. One that is blocked is claimed, or in the stack, or taken by the
  -- winner that has yet to claim it; and one that was woken can return, with ECANCELED where its token is
  -- cancelled, whoever woke it, and with a result otherwise.
  pub Reached-IsServed : {s : Shared S} → Reached stack after s → IsServed s
  Reached-IsServed {s} r =
      let v = Reached-IsAttended stack after x r in
      record { attended = v; can_return = IsAttended-CanReturn s v }
