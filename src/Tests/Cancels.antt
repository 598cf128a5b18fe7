-- ===== src/Tests/Cancels.antt =====
-- src/ufsrv_cancellation/ufsrv_cancellation.c: two registrations, an Unregister and a Cancel, interleaved.
use ufsrvrxlib.Base.{◌≡◌, ◌≤◌, ◌+◌, refl, true, [], ◌∷◌, arith, count}
use ufsrvrxlib.Cancellation.Race.{
  SharedToken, new_token, calling, returned, drop_refs, cancel_at, enrol, withdraw, cancel_first,
  TokenReached, start_new, after_act, enrolled,
}
use ufsrvrxlib.Cancellation.Race.Heard.{IsHeard, TokenReached-IsHeard}
use ufsrvrxlib.Cancellation.Race.Counted.{IsCounted, TokenReached-IsCounted}
use ufsrvrxlib.Cancellation.Race.Ends.{run_cancel, cancel_ends}

abbrev both : SharedToken
both = enrolled 2 (enrolled 1 new_token)

abbrev one_left : SharedToken
one_left = record (drop_refs 2 2 both) { held = 1 ∷ []; listed = 1 ∷ []; withdrawn = 2 ∷ [] }

abbrev cancelled : SharedToken
cancelled = record one_left { is_cancelled = true; canceller = calling (1 ∷ []); listed = [] }

abbrev cancelled_reached : TokenReached cancelled
cancelled_reached =
    after_act
      (after_act (after_act (after_act start_new (enrol 1 refl refl)) (enrol 2 refl refl))
        (withdraw [] (1 ∷ []) [] (1 ∷ []) 2 refl refl refl))
      (cancel_first refl refl)

TokenReached-IsHeard_example : IsHeard 2 cancelled
TokenReached-IsHeard_example = TokenReached-IsHeard 2 {s = cancelled} cancelled_reached

TokenReached-IsCounted_example : IsCounted 1 cancelled
TokenReached-IsCounted_example = TokenReached-IsCounted 1 {s = cancelled} cancelled_reached

cancel_ends_example :
    ((run_cancel 3 cancelled).canceller ≡ returned)
    × (count 1 (run_cancel 3 cancelled).calls + 0 + 0 ≡ 1)
    × (count 1 (run_cancel 3 cancelled).calls ≤ 1)
cancel_ends_example = cancel_ends 1 3 cancelled cancelled_reached refl (omega arith)

run_cancel_calls : (run_cancel 3 cancelled).calls ≡ 1 ∷ []
unfolding run_cancel cancel_at
run_cancel_calls = refl
