-- ===== src/Tests/Races.antt =====
-- src/ufsrv_future/ufsrv_future.c: a continuation, a blocked wait and a completion, interleaved.
use ufsrvrxlib.Base.{
  ℕ, Bool, ◌==◌, if◌then◌else◌, ◌≡◌, ◌≤◌, ◌+◌, refl, true, false, some, [], ◌∷◌, arith, count,
}
use ufsrvrxlib.Future.{no_result}
use ufsrvrxlib.Future.Interface.{FutureResult}
use ufsrvrxlib.Tests.Rig.{Stack, stack}
use ufsrvrxlib.Future.Race.{
  Shared, storing, finished, complete_at, win, arrive, read_pending, push, begin, look_pending,
  enqueue, completes, registers, waits, Reached, here, later, created,
}
use ufsrvrxlib.Future.Race.Answer.{IsAnswered, Reached-IsAnswered}
use ufsrvrxlib.Future.Race.Once.{count_calls, IsOnce, Reached-IsOnce}
use ufsrvrxlib.Future.Race.Returns.{IsServed, Reached-IsServed}
use ufsrvrxlib.Future.Race.Ends.{run_winner, run_winner-HasEnded, completion_ends}

-- The continuation 1 moves the result, and consumes the future.
abbrev after : ℕ → Bool → FutureResult → FutureResult × Bool
after x consumed r = if x == 1 then (if consumed then r else no_result, true) else (r, consumed)

abbrev answer : FutureResult
answer = record no_result { value = some 5 }

abbrev won : Shared Stack
won = record (created stack after) {
  is_completed = true;
  continuations = (1 ∷ [], false);
  waiters = (2 ∷ [], false);
  winner = storing answer;
  blocked = 2 ∷ [];
  answer = some answer;
  registered = 1 ∷ [];
  awaited = 2 ∷ [];
}

abbrev won_reached : Reached stack after won
won_reached =
    later
      (later
        (later
          (later
            (later
              (later (later here (registers (arrive 1 refl refl)))
                (registers (read_pending [] [] 1 refl refl refl)))
              (registers (push [] [] 1 refl refl)))
            (waits (begin 2 refl refl)))
          (waits (look_pending [] [] 2 refl refl refl)))
        (waits (enqueue [] [] 2 refl refl)))
      (completes (win answer refl refl))

completion_ends_example :
    ((run_winner stack after 12 won).winner ≡ finished)
    × (count_calls 1 (run_winner stack after 12 won).calls + 0 + 0 + 0 + 0 ≡ 1)
    × (count 1 won.blocked
        ≤ count 1 (run_winner stack after 12 won).woken
          + count 1 (run_winner stack after 12 won).cancelled
          + count 1 (run_winner stack after 12 won).cancelling)
completion_ends_example = completion_ends stack after 1 12 won won_reached refl (omega arith)

abbrev over : Shared Stack
over = run_winner stack after 12 won

over_woken :
    (over.woken ≡ 2 ∷ [])
    × (over.calls ≡ record { at = 1; seen = answer; left = no_result } ∷ [])
    × (over.winner ≡ finished)
unfolding run_winner complete_at
over_woken = (refl, refl, refl)

over_reached : Reached stack after over
over_reached = (run_winner-HasEnded stack after 12 won won_reached refl (omega arith)).reached

Reached-IsAnswered_example : IsAnswered stack after over
Reached-IsAnswered_example = Reached-IsAnswered stack after {s = over} over_reached

Reached-IsOnce_example : IsOnce stack after 1 over
Reached-IsOnce_example = Reached-IsOnce stack after 1 {s = over} over_reached

Reached-IsServed_example : IsServed stack after 2 over
Reached-IsServed_example = Reached-IsServed stack after 2 {s = over} over_reached
