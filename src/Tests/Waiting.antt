-- ===== src/Tests/Waiting.antt =====
-- A thread and a coroutine that wait for a future.
use ufsrvrxlib.Base.{
  ℕ, ◌≡◌, refl, Bool, true, false, none, some, [], ◌∷◌, ◌++◌, arith, ◌==◌, if◌then◌else◌,
}
use ufsrvrxlib.Base.Int.{pos, negsuc}
use ufsrvrxlib.Future.Interface.{FutureResult}
use ufsrvrxlib.Future.Heap.{Future, Promise, State, ok, and_then}
use ufsrvrxlib.Future.{no_result, ecanceled, error_result}
use ufsrvrxlib.Future.Promises.{set_result}
use ufsrvrxlib.Future.Wait.{
  WaitToken, future_get, future_get_with_cancellation, waiter_cancel_release,
}
use ufsrvrxlib.Future.Wait.Wake.{IsIdle}
use ufsrvrxlib.Future.Wait.Answer.{IsUnanswered, Got}
use ufsrvrxlib.Future.Wait.Blocking.{blocked, future_get-blocks}
use ufsrvrxlib.Future.Wait.Cancelled.{
  IsTokenFor, GaveUp, cancelling, future_get_with_cancellation-GaveUp,
}
use ufsrvrxlib.Future.Wait.Refused.{
  RolledBack, coroutine_of, future_get_with_cancellation-RolledBack,
}
use ufsrvrxlib.Tests.Rig.{Stack, stack, base, Trace, host, calls, calls-IsPlain, calls-Drops}

abbrev answer : FutureResult
answer = record { error = pos 0; value = some 42; free_value = some 900 }

abbrev open_future : Future Stack
open_future = record {
  is_completed = false;
  is_consumed = false;
  is_ready = false;
  result = no_result;
  continuations = ([], false);
  waiters = ([], false);
  refcount = 3;
  cancel_token = some 70;
  cancel_handle = some 71;
}

abbrev promised : Promise
promised = record { future = 1; is_fulfilled = false }

abbrev world : State Trace Stack (ℕ × Bool)
world = record {
  futures = λ p. if p == 1 then some open_future else none;
  promises = λ p. if p == 2 then some promised else none;
  conts = λ p. none;
  waiting = λ p. none;
  contexts = λ p. none;
  env = [];
}

world-IsIdle : IsIdle host stack base calls calls-IsPlain world 1 open_future
world-IsIdle = record {
  ne_null = omega arith;
  holds = refl;
  incomplete = refl;
  unready = refl;
  unclosed = refl;
  alone = (refl, refl);
  attached = λ h e. (omega arith, calls-Drops h);
}

world-IsUnanswered : IsUnanswered host stack base calls calls-IsPlain world 2 open_future promised
world-IsUnanswered = record {
  ne_null = omega arith;
  future = world-IsIdle;
  promised = (refl, refl);
}

future_get-blocks_example :
    Got host stack base calls calls-IsPlain world 9 promised open_future answer
      (λ t.
        future_get host stack base false
          (set_result host stack base calls 2 answer)
          9
          (some 33)
          (blocked host stack base calls calls-IsPlain)
          1
          world
        ≡ ok answer t)
      ((4, 71) ∷ (1, 33) ∷ (2, 33) ∷ [])
future_get-blocks_example =
    future_get-blocks host stack base calls calls-IsPlain world 2 9 open_future promised 33 answer
      false world-IsUnanswered (omega arith)

-- A token that was cancelled if 80 was logged.
abbrev is_logged : Trace → Bool
is_logged [] = false
is_logged ((a, b) ∷ env) = if a == 80 then true else is_logged env

abbrev token : WaitToken Trace Stack (ℕ × Bool)
token = record {
  register_wake = λ a s. ok (some 72) (record s { env = s.env ++ (81, a) ∷ [] });
  register_resume = λ a s. ok none s;
  unregister = λ h s.
      and_then (waiter_cancel_release host stack base 9 s)
        (λ _ t. ok tt (record t { env = t.env ++ (82, h) ∷ [] }));
  is_cancelled = λ s. ok (is_logged s.env) s;
}

abbrev token-IsTokenFor : IsTokenFor host stack base token 9 72
token-IsTokenFor = record {
  flag = is_logged;
  entering = λ env. env ++ (81, 9) ∷ [];
  leaving = λ env. env ++ (82, 72) ∷ [];
  reads = λ s. refl;
  registers = λ s. refl;
  releases = λ s. refl;
}

future_get_with_cancellation-GaveUp_example :
    GaveUp host stack base calls calls-IsPlain world 1 9 open_future answer
      (λ t.
        future_get_with_cancellation host stack base false
          (cancelling host stack base (λ env. env ++ (80, 70) ∷ []) 9)
          9
          (some 33)
          (record { scheduler = none; coroutine = none; is_on_worker_thread = false })
          (some token)
          1
          world
        ≡ ok (error_result ecanceled) t)
      ((81, 9) ∷ (1, 33) ∷ (80, 70) ∷ (2, 33) ∷ (82, 72) ∷ [])
future_get_with_cancellation-GaveUp_example =
    future_get_with_cancellation-GaveUp host stack base calls calls-IsPlain world 1 9 open_future 33
      72 token token-IsTokenFor (λ env. env ++ (80, 70) ∷ []) answer false world-IsIdle
      (omega arith) refl refl

-- A token that is not cancelled and has no memory for a registration.
abbrev full_token : WaitToken Trace Stack (ℕ × Bool)
full_token = record token { is_cancelled = ok false }

future_get_with_cancellation-RolledBack_example :
    RolledBack host stack base calls calls-IsPlain world 1 9 open_future answer
      (λ t.
        future_get_with_cancellation host stack base false
          (λ s. ok tt s)
          9
          none
          (coroutine_of host stack base 60 61)
          (some full_token)
          1
          world
        ≡ ok (error_result (negsuc 0)) t)
      ((4, 71) ∷ (60, 61) ∷ [])
future_get_with_cancellation-RolledBack_example =
    future_get_with_cancellation-RolledBack host stack base calls calls-IsPlain world 1 9
      open_future 60 61 none full_token (λ s. ok tt s) answer ((4, 71) ∷ (60, 61) ∷ []) false
      world-IsIdle (omega arith) (λ t. refl) (λ t. refl) refl
