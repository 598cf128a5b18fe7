-- ===== src/Future/Race/Phase.antt =====
-- src/ufsrv_future/ufsrv_future.c: what the state of a future and its stacks say of how far the winner is.
use ufsrvrxlib.Base.{
  ℕ, ◌≡◌, refl, Bool, true, false, Option, none, some, [], ◌∷◌, arith, ◌⊎◌, inl, inr, Bool-cases,
  middle-not_empty,
}
use ufsrvrxlib.Future.Interface.{TreiberStack, FutureResult}
use ufsrvrxlib.Future.Race.{
  Completer, idle, storing, publishing, shutting, claiming, waking, closing, running, finished,
  Shared, complete_at, win, lose, work, Registers, arrive, read_ready, read_pending, deny, push,
  call, Waits, begin, look_ready, look_pending, enqueue, cancel_claim, cancel_wake, consume,
  cancel_token, look_cancelled, resume, give_up, Act, completes, registers, waits, Reached, here,
  later,
}
use ufsrvrxlib.Future.Race.Flags.{IsFlagged, Reached-IsFlagged}

abbrev pub started : Completer → Bool
started idle = false
started _ = true

abbrev pub published : Completer → Bool
published idle = false
published (storing r) = false
published publishing = false
published _ = true

abbrev pub shut : Completer → Bool
shut idle = false
shut (storing r) = false
shut publishing = false
shut shutting = false
shut _ = true

abbrev pub settled : Completer → Bool
settled (running cs) = true
settled finished = true
settled _ = false

abbrev pub Given : Completer → Option FutureResult → FutureResult → Type 0
Given idle a r = a ≡ none
Given (storing q) a r = a ≡ some q
Given publishing a r = a ≡ some r
Given _ a r = Unit {0}

module _ {S : Type 0} (stack : TreiberStack S)
    (after : ℕ → Bool → FutureResult → FutureResult × Bool) where
  pub record IsPhased (s : Shared S) : Type 0 where
    pub completed : s.is_completed ≡ started s.winner
    pub ready : s.is_ready ≡ published s.winner
    pub waiters_closed : stack.is_closed s.waiters ≡ shut s.winner
    pub continuations_closed : stack.is_closed s.continuations ≡ settled s.winner
    pub waiters_stolen : shut s.winner ≡ true → stack.items s.waiters ≡ []
    pub continuations_stolen : settled s.winner ≡ true → stack.items s.continuations ≡ []
    pub given : Given s.winner s.answer s.result
    pub no_calling : published s.winner ≡ false → s.calling ≡ []
    pub no_calls : published s.winner ≡ false → s.calls ≡ []
    pub no_woken : published s.winner ≡ false → s.woken ≡ []
    pub no_returned : published s.winner ≡ false → s.returned ≡ []

  complete_at-IsPhased :
      (s t : Shared S) (w : Completer)
      → w ≡ s.winner
      → complete_at stack after w s ≡ some t
      → IsPhased s
      → IsPhased t
  unfolding complete_at
  complete_at-IsPhased s t idle e h v = cc
  complete_at-IsPhased s t (storing r) e h v = ground arith
  complete_at-IsPhased s t publishing e h v = ground arith
  complete_at-IsPhased s t shutting e h v = ground (arith, stack.steal-closes s.waiters)
  complete_at-IsPhased s t (claiming []) e h v = ground arith
  complete_at-IsPhased s t (claiming (x ∷ xs)) e h v = ground arith
  complete_at-IsPhased s t (waking x xs) e h v = ground arith
  complete_at-IsPhased s t closing e h v = ground (arith, stack.steal-closes s.continuations)
  complete_at-IsPhased s t (running []) e h v = ground arith
  complete_at-IsPhased s t (running (x ∷ xs)) e h v = ground arith
  complete_at-IsPhased s t finished e h v = cc

  pub pushes :
      (s : S) (x : ℕ)
      → ((stack.is_closed s ≡ true) × (stack.push s x ≡ none))
        ⊎ ((stack.is_closed s ≡ false)
            × (r : S) × (stack.push s x ≡ some r)
            × (stack.items r ≡ x ∷ stack.items s)
            × (stack.is_closed r ≡ false))
  pushes s x = elim (Bool-cases (stack.is_closed s)) [
    | inl e ↦ inl (e, stack.push-closed s x e)
    | inr e ↦ (let r = stack.push-open s x e in inr (e, r.0, r.1, r.2, r.3))
  ]

  Registers-IsPhased : (s t : Shared S) → Registers stack after s t → IsPhased s → IsPhased t
  Registers-IsPhased s t (arrive x h e) v = ground arith
  Registers-IsPhased s t (read_ready xs ys x h r e) v = ground arith
  Registers-IsPhased s t (read_pending xs ys x h r e) v = ground arith
  Registers-IsPhased s t (deny xs ys x h e) v = ground arith
  Registers-IsPhased s t (push xs ys x h e) v = ground (arith, pushes s.continuations x)
  Registers-IsPhased s t (consume e) v = ground arith
  Registers-IsPhased s t (call xs ys x h e) v = ground (arith, middle-not_empty x xs ys)

  Waits-IsPhased :
      (s t : Shared S)
      → Waits stack after s t
      → ((x : ℕ) → IsFlagged stack after x s)
      → IsPhased s
      → IsPhased t
  Waits-IsPhased s t (begin x h e) w v = ground arith
  Waits-IsPhased s t (look_ready xs ys x h r e) w v = ground arith
  Waits-IsPhased s t (look_pending xs ys x h r e) w v = ground arith
  Waits-IsPhased s t (enqueue xs ys x h e) w v = ground (arith, pushes s.waiters x)
  Waits-IsPhased s t (cancel_token x e) w v = ground arith
  Waits-IsPhased s t (look_cancelled xs ys x h r e) w v = ground arith
  Waits-IsPhased s t (cancel_claim xs ys x h f r e) w v = ground arith
  Waits-IsPhased s t (cancel_wake xs ys x h e) w v = ground arith
  Waits-IsPhased s t (resume xs ys x h r f e) w v = ground (arith, (w x).flagged)
  Waits-IsPhased s t (give_up xs ys x h r f e) w v = ground arith

  pub Act-IsPhased :
      (s t : Shared S)
      → Act stack after s t
      → ((x : ℕ) → IsFlagged stack after x s)
      → IsPhased s
      → IsPhased t
  Act-IsPhased s t (completes (win r h e)) w v = ground arith
  Act-IsPhased s t (completes (lose h e)) w v = ground arith
  Act-IsPhased s t (completes (work h)) w v = complete_at-IsPhased s t s.winner refl h v
  Act-IsPhased s t (registers h) w v = Registers-IsPhased s t h v
  Act-IsPhased s t (waits h) w v = Waits-IsPhased s t h w v

  pub Reached-IsPhased : {s : Shared S} → Reached stack after s → IsPhased s
  Reached-IsPhased here = ground (arith, stack.create-empty)
  Reached-IsPhased (later r h) =
      Act-IsPhased _ _ h (λ x. Reached-IsFlagged stack after x r) (Reached-IsPhased r)
