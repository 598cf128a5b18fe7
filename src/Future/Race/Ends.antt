-- ===== src/Future/Race/Ends.antt =====
-- src/ufsrv_future/ufsrv_future.c: the winner of a completion, run to its end.
use ufsrvrxlib.Base.{
  Bool, ℕ, zero, suc, count, Option-cases, inl, inr, ◌+◌, ◌*◌, ◌<◌, ◌≤◌, ◌≡◌, refl, true, some,
  none, [], ◌∷◌, arith, length, ap,
}
use ufsrvrxlib.Future.Interface.{TreiberStack, FutureResult}
use ufsrvrxlib.Future.Race.{
  Completer, idle, storing, publishing, shutting, claiming, waking, closing, running, finished,
  Shared, complete_at, work, completes, Reached, later,
}
use ufsrvrxlib.Future.Race.Phase.{started}
use ufsrvrxlib.Future.Race.Once.{count_calls, finished-called}
use ufsrvrxlib.Future.Race.Wakes.{finished-woken}

module _ {S : Type 0} (stack : TreiberStack S)
    (after : ℕ → Bool → FutureResult → FutureResult × Bool) where
  abbrev pub budget_at : Completer → (waiting pending : ℕ) → ℕ
  budget_at idle w c = 0
  budget_at (storing r) w c = 7 + 2 * w + c
  budget_at publishing w c = 6 + 2 * w + c
  budget_at shutting w c = 5 + 2 * w + c
  budget_at (claiming ws) w c = 4 + 2 * length ws + c
  budget_at (waking x ws) w c = 5 + 2 * length ws + c
  budget_at closing w c = 3 + c
  budget_at (running cs) w c = 2 + length cs
  budget_at finished w c = 0

  -- What the winner has left to do, if nobody pushes any more.
  abbrev pub budget : Shared S → ℕ
  budget s =
      budget_at s.winner (length (stack.items s.waiters)) (length (stack.items s.continuations))

  pub complete_at-budget :
      (s t : Shared S) (w : Completer)
      → w ≡ s.winner
      → complete_at stack after w s ≡ some t
      → (budget t < budget s) × (started t.winner ≡ true)
  unfolding complete_at
  complete_at-budget s t idle e h = cc
  complete_at-budget s t (storing r) e h = ground arith
  complete_at-budget s t publishing e h = ground arith
  complete_at-budget s t shutting e h =
      ground (arith, stack.steal-items s.waiters, stack.steal-closes s.waiters)
  complete_at-budget s t (claiming []) e h = ground arith
  complete_at-budget s t (claiming (w ∷ ws)) e h = ground arith
  complete_at-budget s t (waking w ws) e h = ground arith
  complete_at-budget s t closing e h =
      ground (arith, stack.steal-items s.continuations, stack.steal-closes s.continuations)
  complete_at-budget s t (running []) e h = ground arith
  complete_at-budget s t (running (c ∷ cs)) e h = ground arith
  complete_at-budget s t finished e h = cc

  stops_at-finished :
      (s : Shared S) (w : Completer)
      → started w ≡ true
      → complete_at stack after w s ≡ none
      → w ≡ finished
  unfolding complete_at
  stops_at-finished s idle e h = cc
  stops_at-finished s (storing r) e h = cc
  stops_at-finished s publishing e h = cc
  stops_at-finished s shutting e h = cc
  stops_at-finished s (claiming []) e h = cc
  stops_at-finished s (claiming (w ∷ ws)) e h = cc
  stops_at-finished s (waking w ws) e h = cc
  stops_at-finished s closing e h = cc
  stops_at-finished s (running []) e h = cc
  stops_at-finished s (running (c ∷ cs)) e h = cc
  stops_at-finished s finished e h = refl

  -- The registrations and the waits, which are other threads'.
  pub record IsAlone (s t : Shared S) : Type 0 where
    registered : t.registered ≡ s.registered
    arriving : t.arriving ≡ s.arriving
    pushing : t.pushing ≡ s.pushing
    calling : t.calling ≡ s.calling
    denied : t.denied ≡ s.denied
    blocked : t.blocked ≡ s.blocked

  IsAlone-refl : (s : Shared S) → IsAlone s s
  IsAlone-refl s = ground arith

  IsAlone-trans : {s t u : Shared S} → IsAlone s t → IsAlone t u → IsAlone s u
  IsAlone-trans a b = ground arith

  complete_at-IsAlone :
      (s t : Shared S) (w : Completer) → complete_at stack after w s ≡ some t → IsAlone s t
  unfolding complete_at
  complete_at-IsAlone s t idle h = cc
  complete_at-IsAlone s t (storing r) h = ground arith
  complete_at-IsAlone s t publishing h = ground arith
  complete_at-IsAlone s t shutting h = ground arith
  complete_at-IsAlone s t (claiming []) h = ground arith
  complete_at-IsAlone s t (claiming (w ∷ ws)) h = ground arith
  complete_at-IsAlone s t (waking w ws) h = ground arith
  complete_at-IsAlone s t closing h = ground arith
  complete_at-IsAlone s t (running []) h = ground arith
  complete_at-IsAlone s t (running (c ∷ cs)) h = ground arith
  complete_at-IsAlone s t finished h = cc

  -- The winner alone, for at most `k` actions.
  unfoldable pub run_winner : ℕ → Shared S → Shared S
  run_winner zero s = s
  run_winner (suc k) s = elim (complete_at stack after s.winner s) [
    | none ↦ s
    | some t ↦ run_winner k t
  ]

  pub record HasEnded (s t : Shared S) : Type 0 where
    pub at_end : t.winner ≡ finished
    pub reached : Reached stack after t
    alone : IsAlone s t

  pub run_winner-HasEnded :
      (k : ℕ) (s : Shared S)
      → Reached stack after s
      → started s.winner ≡ true
      → budget s ≤ k
      → HasEnded s (run_winner k s)
  unfolding run_winner
  run_winner-HasEnded zero s r b h = elim (Option-cases (complete_at stack after s.winner s)) [
    | inl e ↦ record {
      at_end = stops_at-finished s s.winner b e;
      reached = r;
      alone = IsAlone-refl s;
    }
    | inr (t, e) ↦ absurd (omega (arith, (complete_at-budget s t s.winner refl e).0))
  ]
  run_winner-HasEnded (suc k) s r b h = elim (Option-cases (complete_at stack after s.winner s)) [
    | inl e ↦
        rw (e, run_winner)
          (record {
            at_end = stops_at-finished s s.winner b e;
            reached = r;
            alone = IsAlone-refl s;
          })
    | inr (t, e) ↦
        let c : (budget t < budget s) × (started t.winner ≡ true) =
          complete_at-budget s t s.winner refl e in
        let rest : HasEnded t (run_winner k t) =
          run_winner-HasEnded k t (later r (completes (work e))) c.1 (omega arith) in
        rw (e, run_winner)
          (record {
            at_end = rest.at_end;
            reached = rest.reached;
            alone = IsAlone-trans (complete_at-IsAlone s t s.winner e) rest.alone;
          })
  ]

  -- From any reachable state in which a thread has won the completion, that thread alone comes to its end
  -- within the budget, and then every continuation given so far, whose thread is no longer in `sFutureThen`
  -- and whose allocation did not fail, is called exactly once, and every waiter that is blocked is woken or
  -- claimed by a cancel callback that is to wake it.
  pub completion_ends :
      (x k : ℕ) (s : Shared S)
      → Reached stack after s
      → started s.winner ≡ true
      → budget s ≤ k
      → ((run_winner k s).winner ≡ finished)
        × (count_calls x (run_winner k s).calls
              + count x s.arriving
              + count x s.pushing
              + count x s.calling
              + count x s.denied
            ≡ count x s.registered)
        × (count x s.blocked
            ≤ count x (run_winner k s).woken
              + count x (run_winner k s).cancelled
              + count x (run_winner k s).cancelling)
  completion_ends x k s r b h =
      let d : HasEnded s (run_winner k s) = run_winner-HasEnded k s r b h in
      (
        d.at_end,
        ground (arith, finished-called stack after x d.reached d.at_end, ap (count x)),
        ground (arith, finished-woken stack after x d.reached d.at_end, ap (count x)),
      )
