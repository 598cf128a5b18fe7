-- ===== src/Future/Race/Flags.antt =====
-- src/ufsrv_future/ufsrv_future.c: a cancel callback runs where its token is cancelled.
use ufsrvrxlib.Base.{
  ℕ, ◌+◌, ◌≡◌, Bool, false, some, [], ◌∷◌, arith, count, count-middle, Option-cases,
}
use ufsrvrxlib.Future.Interface.{TreiberStack, FutureResult}
use ufsrvrxlib.Future.Race.{
  Completer, idle, storing, publishing, shutting, claiming, waking, closing, running, finished,
  Shared, complete_at, win, lose, work, Registers, arrive, read_ready, read_pending, deny, push,
  call, consume, Waits, begin, look_ready, look_pending, enqueue, cancel_token, look_cancelled,
  cancel_claim, cancel_wake, resume, give_up, Act, completes, registers, waits, Reached, here,
  later,
}

module _ {S : Type 0} (stack : TreiberStack S)
    (after : ℕ → Bool → FutureResult → FutureResult × Bool) (x : ℕ) where
  pub record IsFlagged (s : Shared S) : Type 0 where
    pub flagged : s.token_cancelled x ≡ false → count x s.cancelling + count x s.cancelled ≡ 0

  complete_at-IsFlagged :
      (s t : Shared S) (w : Completer)
      → complete_at stack after w s ≡ some t
      → IsFlagged s
      → IsFlagged t
  unfolding complete_at
  complete_at-IsFlagged s t idle h v = cc
  complete_at-IsFlagged s t (storing r) h v = ground arith
  complete_at-IsFlagged s t publishing h v = ground arith
  complete_at-IsFlagged s t shutting h v = ground arith
  complete_at-IsFlagged s t (claiming []) h v = ground arith
  complete_at-IsFlagged s t (claiming (w ∷ ws)) h v = ground arith
  complete_at-IsFlagged s t (waking w ws) h v = ground arith
  complete_at-IsFlagged s t closing h v = ground arith
  complete_at-IsFlagged s t (running []) h v = ground arith
  complete_at-IsFlagged s t (running (c ∷ cs)) h v = ground arith
  complete_at-IsFlagged s t finished h v = cc

  Registers-IsFlagged : (s t : Shared S) → Registers stack after s t → IsFlagged s → IsFlagged t
  Registers-IsFlagged s t (arrive y h e) v = ground arith
  Registers-IsFlagged s t (read_ready xs ys y h r e) v = ground arith
  Registers-IsFlagged s t (read_pending xs ys y h r e) v = ground arith
  Registers-IsFlagged s t (deny xs ys y h e) v = ground arith
  Registers-IsFlagged s t (push xs ys y h e) v =
      ground (arith, Option-cases (stack.push s.continuations y))
  Registers-IsFlagged s t (call xs ys y h e) v = ground arith
  Registers-IsFlagged s t (consume e) v = ground arith

  Waits-IsFlagged : (s t : Shared S) → Waits stack after s t → IsFlagged s → IsFlagged t
  Waits-IsFlagged s t (begin y h e) v = ground arith
  Waits-IsFlagged s t (look_ready xs ys y h r e) v = ground arith
  Waits-IsFlagged s t (look_pending xs ys y h r e) v = ground arith
  Waits-IsFlagged s t (enqueue xs ys y h e) v =
      ground (arith, Option-cases (stack.push s.waiters y))
  Waits-IsFlagged s t (cancel_token y e) v = ground arith
  Waits-IsFlagged s t (look_cancelled xs ys y h r e) v = ground arith
  Waits-IsFlagged s t (cancel_claim xs ys y h f r e) v = ground arith
  Waits-IsFlagged s t (cancel_wake xs ys y h e) v = ground (arith, count-middle x y xs ys)
  Waits-IsFlagged s t (resume xs ys y h r f e) v = ground arith
  Waits-IsFlagged s t (give_up xs ys y h r f e) v = ground arith

  Act-IsFlagged : (s t : Shared S) → Act stack after s t → IsFlagged s → IsFlagged t
  Act-IsFlagged s t (completes (win r h e)) v = ground arith
  Act-IsFlagged s t (completes (lose h e)) v = ground arith
  Act-IsFlagged s t (completes (work h)) v = complete_at-IsFlagged s t s.winner h v
  Act-IsFlagged s t (registers h) v = Registers-IsFlagged s t h v
  Act-IsFlagged s t (waits h) v = Waits-IsFlagged s t h v

  pub Reached-IsFlagged : {s : Shared S} → Reached stack after s → IsFlagged s
  Reached-IsFlagged here = ground arith
  Reached-IsFlagged (later r h) = Act-IsFlagged _ _ h (Reached-IsFlagged r)
