-- ===== src/Future/Race/Answer.antt =====
-- src/ufsrv_future/ufsrv_future.c: what the calls of continuations and the waits were given.
use ufsrvrxlib.Base.{
  ◌⊎◌, inl, inr, Bool, ℕ, ◌≡◌, refl, true, Option, some, List, [], ◌∷◌, All, arith,
  middle-not_empty,
}
use ufsrvrxlib.Future.Interface.{TreiberStack, FutureResult}
use ufsrvrxlib.Future.Race.Flags.{IsFlagged, Reached-IsFlagged}
use ufsrvrxlib.Future.Race.{
  Called, called, Completer, idle, storing, publishing, shutting, claiming, waking, closing,
  running, finished, Shared, complete_at, win, lose, work, Registers, arrive, read_ready,
  read_pending, deny, push, call, Waits, begin, look_ready, look_pending, enqueue, cancel_claim,
  cancel_wake, consume, cancel_token, look_cancelled, resume, give_up, Act, completes, registers,
  waits, Reached, here, later,
}
use ufsrvrxlib.Future.Race.Phase.{published, pushes, IsPhased, Reached-IsPhased}

module _ {S : Type 0} (stack : TreiberStack S)
    (after : ℕ → Bool → FutureResult → FutureResult × Bool) where
  -- The calls, the newest first, were each handed what the one before left, and the first the answer `a`; `r`
  -- is what the newest left, or the answer where there was none.
  abbrev pub Handed : Option FutureResult → List Called → FutureResult → Type 0
  Handed a [] r = a ≡ some r
  Handed a (c ∷ cs) r =
      (r ≡ c.left) × ((b : Bool) × (c.left ≡ (after c.at b c.seen).0)) × Handed a cs c.seen

  -- The result `r` is the answer, or was left by one of the calls.
  abbrev pub Stood : Option FutureResult → List Called → FutureResult → Type 0
  Stood a [] r = a ≡ some r
  Stood a (c ∷ cs) r = (r ≡ c.left) ⊎ Stood a cs r

  Handed-Stood :
      (a : Option FutureResult) (cs : List Called) (r : FutureResult) → Handed a cs r → Stood a cs r
  Handed-Stood a [] r h = h
  Handed-Stood a (c ∷ cs) r h = inl h.0

  abbrev pub AllStood : Option FutureResult → List Called → List (ℕ × FutureResult) → Type 0
  AllStood a cs l = All (λ w. Stood a cs w.1) l

  AllStood-cons :
      (a : Option FutureResult) (c : Called) (cs : List Called) (l : List (ℕ × FutureResult))
      → AllStood a cs l
      → AllStood a (c ∷ cs) l
  AllStood-cons a c cs [] h = tt
  AllStood-cons a c cs (w ∷ l) h = (inr h.0, AllStood-cons a c cs l h.1)

  pub record IsAnswered (s : Shared S) : Type 0 where
    pub handed : published s.winner ≡ true → Handed s.answer s.calls s.result
    pub stood : AllStood s.answer s.calls s.returned

  called-IsAnswered :
      (s : Shared S) (x : ℕ)
      → published s.winner ≡ true
      → IsAnswered s
      → Handed s.answer (called stack after x s).calls (called stack after x s).result
        × AllStood s.answer (called stack after x s).calls s.returned
  called-IsAnswered s x p v =
      let c : Called = record {
        at = x;
        seen = s.result;
        left = (after x s.is_consumed s.result).0;
      } in
      (
        (refl, (s.is_consumed, refl), v.handed p),
        AllStood-cons s.answer c s.calls s.returned v.stood,
      )

  stands :
      (s : Shared S) → published s.winner ≡ true → IsAnswered s → Stood s.answer s.calls s.result
  stands s p v = Handed-Stood s.answer s.calls s.result (v.handed p)

  none_yet :
      (a : Option FutureResult) (cs : List Called) (l : List (ℕ × FutureResult))
      → l ≡ []
      → AllStood a cs l
  none_yet a cs l e = rw (e) tt

  first :
      (a : Option FutureResult) (cs : List Called) (r : FutureResult)
      → cs ≡ []
      → a ≡ some r
      → Handed a cs r
  first a cs r e h = rw (e) h

  complete_at-IsAnswered :
      (s t : Shared S) (w : Completer)
      → w ≡ s.winner
      → complete_at stack after w s ≡ some t
      → IsPhased stack after s
      → IsAnswered s
      → IsAnswered t
  unfolding complete_at
  complete_at-IsAnswered s t idle e h p v = cc
  complete_at-IsAnswered s t (storing r) e h p v = ground arith
  complete_at-IsAnswered s t publishing e h p v = ground (arith, first s.answer s.calls s.result)
  complete_at-IsAnswered s t shutting e h p v = ground arith
  complete_at-IsAnswered s t (claiming []) e h p v = ground arith
  complete_at-IsAnswered s t (claiming (w ∷ ws)) e h p v = ground arith
  complete_at-IsAnswered s t (waking w ws) e h p v = ground arith
  complete_at-IsAnswered s t closing e h p v = ground arith
  complete_at-IsAnswered s t (running []) e h p v = ground arith
  complete_at-IsAnswered s t (running (c ∷ cs)) e h p v = ground (arith, called-IsAnswered s c)
  complete_at-IsAnswered s t finished e h p v = cc

  Registers-IsAnswered :
      (s t : Shared S)
      → Registers stack after s t
      → IsPhased stack after s
      → IsAnswered s
      → IsAnswered t
  Registers-IsAnswered s t (arrive x h e) p v = ground arith
  Registers-IsAnswered s t (read_ready xs ys x h r e) p v = ground arith
  Registers-IsAnswered s t (read_pending xs ys x h r e) p v = ground arith
  Registers-IsAnswered s t (deny xs ys x h e) p v = ground arith
  Registers-IsAnswered s t (push xs ys x h e) p v =
      ground (arith, pushes stack after s.continuations x)
  Registers-IsAnswered s t (call xs ys x h e) p v =
      ground (arith, middle-not_empty x xs ys, called-IsAnswered s x)
  Registers-IsAnswered s t (consume e) p v = ground arith

  Waits-IsAnswered :
      (s t : Shared S)
      → Waits stack after s t
      → ((x : ℕ) → IsFlagged stack after x s)
      → IsPhased stack after s
      → IsAnswered s
      → IsAnswered t
  Waits-IsAnswered s t (begin x h e) w p v = ground arith
  Waits-IsAnswered s t (look_ready xs ys x h r e) w p v = ground (arith, stands s)
  Waits-IsAnswered s t (look_pending xs ys x h r e) w p v = ground arith
  Waits-IsAnswered s t (enqueue xs ys x h e) w p v =
      ground (arith, pushes stack after s.waiters x, stands s)
  Waits-IsAnswered s t (cancel_token x e) w p v = ground arith
  Waits-IsAnswered s t (look_cancelled xs ys x h r e) w p v = ground arith
  Waits-IsAnswered s t (cancel_claim xs ys x h f r e) w p v = ground arith
  Waits-IsAnswered s t (cancel_wake xs ys x h e) w p v = ground arith
  Waits-IsAnswered s t (resume xs ys x h r f e) w p v = ground (arith, (w x).flagged, stands s)
  Waits-IsAnswered s t (give_up xs ys x h r f e) w p v = ground arith

  Act-IsAnswered :
      (s t : Shared S)
      → Act stack after s t
      → ((x : ℕ) → IsFlagged stack after x s)
      → IsPhased stack after s
      → IsAnswered s
      → IsAnswered t
  Act-IsAnswered s t (completes (win r h e)) w p v =
      ground (arith, none_yet (some r) s.calls s.returned)
  Act-IsAnswered s t (completes (lose h e)) w p v = ground arith
  Act-IsAnswered s t (completes (work h)) w p v = complete_at-IsAnswered s t s.winner refl h p v
  Act-IsAnswered s t (registers h) w p v = Registers-IsAnswered s t h p v
  Act-IsAnswered s t (waits h) w p v = Waits-IsAnswered s t h w p v

  -- In every reachable state whose future is published, the first call of a continuation was handed the
  -- result that the one winner was given, and each later call, by the winner or by a registering thread, what
  -- the call before it left, which is what `after` gives for it; what the newest left is the future's result.
  -- In every reachable state each result that a wait has returned is the winner's, or was left by a call.
  pub Reached-IsAnswered : {s : Shared S} → Reached stack after s → IsAnswered s
  Reached-IsAnswered here = ground arith
  Reached-IsAnswered (later r h) =
      Act-IsAnswered _ _ h (λ x. Reached-IsFlagged stack after x r) (Reached-IsPhased stack after r)
        (Reached-IsAnswered r)
