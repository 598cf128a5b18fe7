-- ===== src/Future/Race/Wakes.antt =====
-- src/ufsrv_future/ufsrv_future.c: where a wait for a future is at any moment, and who wakes it.
use ufsrvrxlib.Base.{
  ◌==◌, Bool, ℕ, ◌+◌, ◌≤◌, ◌≡◌, refl, some, List, [], ◌∷◌, arith, count, count-middle,
  if◌then◌else◌, ap,
}
use ufsrvrxlib.Future.Interface.{TreiberStack, FutureResult}
use ufsrvrxlib.Future.Race.{
  Completer, idle, storing, publishing, shutting, claiming, waking, closing, running, finished,
  Shared, complete_at, win, lose, work, Registers, arrive, read_ready, read_pending, deny, push,
  call, Waits, begin, look_ready, look_pending, enqueue, cancel_claim, cancel_wake, consume,
  cancel_token, look_cancelled, resume, give_up, Act, completes, registers, waits, Reached, here,
  later,
}
use ufsrvrxlib.Future.Race.Phase.{pushes, IsPhased, Reached-IsPhased}

-- The waiters that the winner has taken from the stack and not looked at yet, and the one that it has
-- claimed and not woken yet.
abbrev pub to_claim : Completer → List ℕ
to_claim (claiming ws) = ws
to_claim (waking w ws) = ws
to_claim _ = []

abbrev pub to_wake : Completer → List ℕ
to_wake (waking w ws) = w ∷ []
to_wake _ = []

abbrev pub count_returns : ℕ → List (ℕ × FutureResult) → ℕ
count_returns x [] = 0
count_returns x (w ∷ ws) = (if w.0 == x then 1 else 0) + count_returns x ws

module _ {S : Type 0} (stack : TreiberStack S)
    (after : ℕ → Bool → FutureResult → FutureResult × Bool) (x : ℕ) where
  pub record IsAttended (s : Shared S) : Type 0 where
    pub single : count x s.awaited ≤ 1
    pub placed :
        count x s.looking
          + count x s.enqueuing
          + count x s.blocked
          + count_returns x s.returned
          + count x s.gave_up
        ≡ count x s.awaited
    pub woken_once :
        count x s.woken + count x (to_wake s.winner) + count x s.cancelling + count x s.cancelled
        ≡ (if s.claimed x then 1 else 0)
    pub attended :
        count x s.blocked
        ≤ count x (stack.items s.waiters)
          + count x (to_claim s.winner)
          + (if s.claimed x then 1 else 0)

  complete_at-IsAttended :
      (s t : Shared S) (w : Completer)
      → w ≡ s.winner
      → complete_at stack after w s ≡ some t
      → IsAttended s
      → IsAttended t
  unfolding complete_at
  complete_at-IsAttended s t idle e h v = cc
  complete_at-IsAttended s t (storing r) e h v = ground arith
  complete_at-IsAttended s t publishing e h v = ground arith
  complete_at-IsAttended s t shutting e h v =
      ground (arith, stack.steal-items s.waiters, stack.steal-closes s.waiters)
  complete_at-IsAttended s t (claiming []) e h v = ground arith
  complete_at-IsAttended s t (claiming (w ∷ ws)) e h v = ground arith
  complete_at-IsAttended s t (waking w ws) e h v = ground arith
  complete_at-IsAttended s t closing e h v = ground arith
  complete_at-IsAttended s t (running []) e h v = ground arith
  complete_at-IsAttended s t (running (c ∷ cs)) e h v = ground arith
  complete_at-IsAttended s t finished e h v = cc

  Registers-IsAttended : (s t : Shared S) → Registers stack after s t → IsAttended s → IsAttended t
  Registers-IsAttended s t (arrive y h e) v = ground arith
  Registers-IsAttended s t (read_ready xs ys y h r e) v = ground arith
  Registers-IsAttended s t (read_pending xs ys y h r e) v = ground arith
  Registers-IsAttended s t (deny xs ys y h e) v = ground arith
  Registers-IsAttended s t (push xs ys y h e) v =
      ground (arith, pushes stack after s.continuations y)
  Registers-IsAttended s t (consume e) v = ground arith
  Registers-IsAttended s t (call xs ys y h e) v = ground arith

  Waits-IsAttended : (s t : Shared S) → Waits stack after s t → IsAttended s → IsAttended t
  Waits-IsAttended s t (begin y h e) v = ground arith
  Waits-IsAttended s t (look_ready xs ys y h r e) v = ground (arith, count-middle x y xs ys)
  Waits-IsAttended s t (look_pending xs ys y h r e) v = ground (arith, count-middle x y xs ys)
  Waits-IsAttended s t (enqueue xs ys y h e) v =
      ground (arith, pushes stack after s.waiters y, count-middle x y xs ys)
  Waits-IsAttended s t (cancel_token y e) v = ground arith
  Waits-IsAttended s t (look_cancelled xs ys y h r e) v = ground (arith, count-middle x y xs ys)
  Waits-IsAttended s t (cancel_claim xs ys y h f r e) v = ground (arith, count-middle x y xs ys)
  Waits-IsAttended s t (cancel_wake xs ys y h e) v = ground (arith, count-middle x y xs ys)
  Waits-IsAttended s t (resume xs ys y h r f e) v = ground (arith, count-middle x y xs ys)
  Waits-IsAttended s t (give_up xs ys y h r f e) v = ground (arith, count-middle x y xs ys)

  Act-IsAttended :
      (s t : Shared S) → Act stack after s t → IsPhased stack after s → IsAttended s → IsAttended t
  Act-IsAttended s t (completes (win r h e)) p v = ground arith
  Act-IsAttended s t (completes (lose h e)) p v = ground arith
  Act-IsAttended s t (completes (work h)) p v = complete_at-IsAttended s t s.winner refl h v
  Act-IsAttended s t (registers h) p v = Registers-IsAttended s t h v
  Act-IsAttended s t (waits h) p v = Waits-IsAttended s t h v

  pub Reached-IsAttended : {s : Shared S} → Reached stack after s → IsAttended s
  Reached-IsAttended here = ground (arith, stack.create-empty)
  Reached-IsAttended (later r h) =
      Act-IsAttended _ _ h (Reached-IsPhased stack after r) (Reached-IsAttended r)

  pub finished-woken :
      {s : Shared S}
      → Reached stack after s
      → s.winner ≡ finished
      → count x s.blocked ≤ count x s.woken + count x s.cancelled + count x s.cancelling
  finished-woken {s} r hw = ground (
    arith,
    (Reached-IsAttended r).attended,
    (Reached-IsAttended r).woken_once,
    (Reached-IsPhased stack after r).waiters_stolen,
    ap (count x),
  )
