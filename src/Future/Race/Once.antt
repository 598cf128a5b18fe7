-- ===== src/Future/Race/Once.antt =====
-- src/ufsrv_future/ufsrv_future.c: where a registered continuation is at any moment.
use ufsrvrxlib.Base.{
  Bool, ℕ, ◌+◌, ◌≤◌, ◌≡◌, refl, some, List, [], ◌∷◌, arith, count, count-middle, ◌==◌,
  if◌then◌else◌, ap,
}
use ufsrvrxlib.Future.Interface.{TreiberStack, FutureResult}
use ufsrvrxlib.Future.Race.{
  Called, Completer, idle, storing, publishing, shutting, claiming, waking, closing, running,
  finished, Shared, complete_at, win, lose, work, Registers, arrive, read_ready, read_pending, deny,
  push, call, Waits, begin, look_ready, look_pending, enqueue, cancel_claim, cancel_wake, consume,
  cancel_token, look_cancelled, resume, give_up, Act, completes, registers, waits, Reached, here,
  later,
}
use ufsrvrxlib.Future.Race.Phase.{pushes, IsPhased, Reached-IsPhased}

-- The continuations that the winner has taken from the stack and not run yet.
abbrev pub in_flight : Completer → List ℕ
in_flight (running cs) = cs
in_flight _ = []

abbrev pub count_calls : ℕ → List Called → ℕ
count_calls x [] = 0
count_calls x (c ∷ cs) = (if c.at == x then 1 else 0) + count_calls x cs

module _ {S : Type 0} (stack : TreiberStack S)
    (after : ℕ → Bool → FutureResult → FutureResult × Bool) (x : ℕ) where
  pub record IsOnce (s : Shared S) : Type 0 where
    pub single : count x s.registered ≤ 1
    pub placed :
        count x s.registered
        ≡ count x s.arriving
          + count x s.pushing
          + count x s.calling
          + count x s.denied
          + count x (stack.items s.continuations)
          + count x (in_flight s.winner)
          + count_calls x s.calls

  complete_at-IsOnce :
      (s t : Shared S) (w : Completer)
      → w ≡ s.winner
      → complete_at stack after w s ≡ some t
      → IsOnce s
      → IsOnce t
  unfolding complete_at
  complete_at-IsOnce s t idle e h v = cc
  complete_at-IsOnce s t (storing r) e h v = ground arith
  complete_at-IsOnce s t publishing e h v = ground arith
  complete_at-IsOnce s t shutting e h v = ground arith
  complete_at-IsOnce s t (claiming []) e h v = ground arith
  complete_at-IsOnce s t (claiming (w ∷ ws)) e h v = ground arith
  complete_at-IsOnce s t (waking w ws) e h v = ground arith
  complete_at-IsOnce s t closing e h v =
      ground (arith, stack.steal-items s.continuations, stack.steal-closes s.continuations)
  complete_at-IsOnce s t (running []) e h v = ground arith
  complete_at-IsOnce s t (running (c ∷ cs)) e h v = ground arith
  complete_at-IsOnce s t finished e h v = cc

  Registers-IsOnce : (s t : Shared S) → Registers stack after s t → IsOnce s → IsOnce t
  Registers-IsOnce s t (arrive y h e) v = ground arith
  Registers-IsOnce s t (read_ready xs ys y h r e) v = ground (arith, count-middle x y xs ys)
  Registers-IsOnce s t (read_pending xs ys y h r e) v = ground (arith, count-middle x y xs ys)
  Registers-IsOnce s t (deny xs ys y h e) v = ground (arith, count-middle x y xs ys)
  Registers-IsOnce s t (push xs ys y h e) v =
      ground (arith, pushes stack after s.continuations y, count-middle x y xs ys)
  Registers-IsOnce s t (consume e) v = ground arith
  Registers-IsOnce s t (call xs ys y h e) v = ground (arith, count-middle x y xs ys)

  Waits-IsOnce : (s t : Shared S) → Waits stack after s t → IsOnce s → IsOnce t
  Waits-IsOnce s t (begin y h e) v = ground arith
  Waits-IsOnce s t (look_ready xs ys y h r e) v = ground arith
  Waits-IsOnce s t (look_pending xs ys y h r e) v = ground arith
  Waits-IsOnce s t (enqueue xs ys y h e) v = ground (arith, pushes stack after s.waiters y)
  Waits-IsOnce s t (cancel_token y e) v = ground arith
  Waits-IsOnce s t (look_cancelled xs ys y h r e) v = ground arith
  Waits-IsOnce s t (cancel_claim xs ys y h f r e) v = ground arith
  Waits-IsOnce s t (cancel_wake xs ys y h e) v = ground arith
  Waits-IsOnce s t (resume xs ys y h r f e) v = ground arith
  Waits-IsOnce s t (give_up xs ys y h r f e) v = ground arith

  Act-IsOnce : (s t : Shared S) → Act stack after s t → IsPhased stack after s → IsOnce s → IsOnce t
  Act-IsOnce s t (completes (win r h e)) p v = ground arith
  Act-IsOnce s t (completes (lose h e)) p v = ground arith
  Act-IsOnce s t (completes (work h)) p v = complete_at-IsOnce s t s.winner refl h v
  Act-IsOnce s t (registers h) p v = Registers-IsOnce s t h v
  Act-IsOnce s t (waits h) p v = Waits-IsOnce s t h v

  -- In every reachable state, a continuation that `sFutureThen` was given is in exactly one place: with the
  -- registering thread, before it reads the state, before it pushes or before it calls it itself; refused
  -- for want of memory; in the stack; taken by the winner and not run yet; or called, and then once. One
  -- that was not given is nowhere, and it is never called.
  pub Reached-IsOnce : {s : Shared S} → Reached stack after s → IsOnce s
  Reached-IsOnce here = ground (arith, stack.create-empty)
  Reached-IsOnce (later r h) = Act-IsOnce _ _ h (Reached-IsPhased stack after r) (Reached-IsOnce r)

  pub finished-called :
      {s : Shared S}
      → Reached stack after s
      → s.winner ≡ finished
      → count_calls x s.calls
          + count x s.arriving
          + count x s.pushing
          + count x s.calling
          + count x s.denied
        ≡ count x s.registered
  finished-called {s} r hw = ground (
    arith,
    (Reached-IsOnce r).placed,
    (Reached-IsPhased stack after r).continuations_stolen,
    ap (count x),
  )
