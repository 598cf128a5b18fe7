-- ===== src/Tests/Futures.antt =====
-- Futures and promises, where the calls leave a trace.
use ufsrvrxlib.Base.{
  ℕ, ◌≡◌, refl, inr, ◌≢◌, Bool, true, false, none, some, [], ◌∷◌, arith, ◌==◌, if◌then◌else◌,
}
use ufsrvrxlib.Base.Int.{pos}
use ufsrvrxlib.Future.Interface.{FutureResult}
use ufsrvrxlib.Future.Heap.{user_fn, Ptr, Future, Promise, Continuation, State, ok}
use ufsrvrxlib.Future.Pending.{Registration, IsPending}
use ufsrvrxlib.Future.Awaited.{Awaiting}
use ufsrvrxlib.Future.Detach.{IsAwaited, Drops-Detaches}
use ufsrvrxlib.Future.Finish.{Finished, future_complete-Finished}
use ufsrvrxlib.Future.Then.{called, then_on_completed}
use ufsrvrxlib.Future.Fulfil.{set_result_refused, Broken, promise_destroy-Broken}
use ufsrvrxlib.Future.{then_on}
use ufsrvrxlib.Future.Promises.{set_result}
use ufsrvrxlib.Tests.Rig.{Stack, stack, base, Trace, host, calls, calls-IsPlain, calls-Drops}

abbrev value : FutureResult
value = record { error = pos 0; value = some 42; free_value = some 900 }

abbrev newer : Registration
newer = record { at = 5; fn = 100; user = 7 }

abbrev older : Registration
older = record { at = 6; fn = 101; user = 8 }

abbrev node_of : Registration → Continuation (ℕ × Bool)
node_of r = record { base = (1, false); fn = user_fn r.fn; user = r.user }

abbrev pending : Future Stack
pending = record {
  is_completed = false;
  is_consumed = false;
  is_ready = false;
  result = record { error = pos 0; value = none; free_value = none };
  continuations = (5 ∷ 6 ∷ [], false);
  waiters = ([], false);
  refcount = 3;
  cancel_token = some 70;
  cancel_handle = some 71;
}

abbrev promise : Promise
promise = record { future = 1; is_fulfilled = false }

abbrev state_of : Future Stack → Promise → State Trace Stack (ℕ × Bool)
state_of f q = record {
  futures = λ p. if p == 1 then some f else none;
  promises = λ p. if p == 2 then some q else none;
  conts =
      λ p. if p == 5 then some (node_of newer) else if p == 6 then some (node_of older) else none;
  waiting = λ p. none;
  contexts = λ p. none;
  env = [];
}

abbrev two_pending : State Trace Stack (ℕ × Bool)
two_pending = state_of pending promise

two_pending-IsPending : IsPending stack base host calls two_pending 1 pending (newer ∷ older ∷ [])
two_pending-IsPending = record {
  ne_null = omega arith;
  holds = refl;
  incomplete = refl;
  unready = refl;
  unclosed = refl;
  stacked = refl;
  queued = (
    (
      omega arith,
      (node_of newer, refl, record { one = refl; unclaimed = refl; fn = refl; user = refl }),
    ),
    (
      (
        omega arith,
        (node_of older, refl, record { one = refl; unclaimed = refl; fn = refl; user = refl }),
      ),
      tt,
    ),
  );
  distinct = ((omega arith, tt), (tt, tt));
  no_waiter = refl;
  attached = λ h e. (omega arith, calls-Drops h);
}

-- A thread that waits on its descriptor, and a coroutine whose cancellation has claimed its waiter.
abbrev sleeper : Awaiting (ℕ × Bool)
sleeper = record {
  at = 20;
  waiter = record {
    base = (2, false);
    coroutine = none;
    scheduler = 0;
    block_fd = some 33;
    cancel_handle = none;
  };
}

abbrev cancelled : Awaiting (ℕ × Bool)
cancelled = record {
  at = 21;
  waiter = record {
    base = (1, true);
    coroutine = some 9;
    scheduler = 4;
    block_fd = none;
    cancel_handle = none;
  };
}

abbrev awaited : Future Stack
awaited = record pending { waiters = (20 ∷ 21 ∷ [], false) }

abbrev two_awaited : State Trace Stack (ℕ × Bool)
two_awaited = record (state_of awaited promise) {
  waiting =
      λ p. if p == 20 then some sleeper.waiter else if p == 21 then some cancelled.waiter else none;
}

two_awaited-IsAwaited :
    IsAwaited host stack base calls two_awaited 1 awaited
      (newer ∷ older ∷ [])
      (sleeper ∷ cancelled ∷ [])
      2
two_awaited-IsAwaited = record {
  ne_null = omega arith;
  holds = refl;
  incomplete = refl;
  stacked = refl;
  queued = two_pending-IsPending.queued;
  distinct = two_pending-IsPending.distinct;
  waited = refl;
  ready = ((omega arith, refl, (1, refl)), ((omega arith, refl, (0, refl)), tt));
  apart = ((omega arith, tt), (tt, tt));
  detaches =
      Drops-Detaches host stack base calls 1 (some 71) 3 (λ h e. (omega arith, calls-Drops h));
}

future_complete-Finished_example :
    Finished host stack base calls calls-IsPlain two_awaited 1 awaited
      (newer ∷ older ∷ [])
      (sleeper ∷ cancelled ∷ [])
      2
      value
      ((4, 71) ∷ (1, 33) ∷ [])
future_complete-Finished_example =
    future_complete-Finished host stack base calls calls-IsPlain two_awaited 1 awaited
      (newer ∷ older ∷ []) (sleeper ∷ cancelled ∷ []) 2 value ((4, 71) ∷ (1, 33) ∷ [])
      two_awaited-IsAwaited refl

abbrev ready : Future Stack
ready = record pending {
  is_completed = true;
  is_ready = true;
  result = value;
  continuations = ([], true);
  waiters = ([], true);
}

abbrev settled : State Trace Stack (ℕ × Bool)
settled = state_of ready promise

-- Closed between the read of the state and the push.
abbrev shut : Future Stack
shut = record ready { is_ready = false }

then_on_completed_example :
    (t : State Trace Stack (ℕ × Bool)) × (then_on host stack base calls 8 1
        (user_fn 102)
        9
        (state_of shut promise)
      ≡ ok true t)
    × (t.futures ≡ (called host (state_of shut promise) 1 shut 102 9).futures)
    × (t.env ≡ (102, 9) ∷ [])
    × ((b : Ptr) → t.conts b ≡ (state_of shut promise).conts b)
then_on_completed_example =
    then_on_completed host stack base calls calls-IsPlain (state_of shut promise) 8 1 shut 102 9
      (omega arith) (omega arith) refl refl (inr refl)

set_result_refused_example :
    (t : State Trace Stack (ℕ × Bool)) × (set_result host stack base calls 2 value settled
      ≡ ok tt t)
    × (t.env ≡ (900, 42) ∷ [])
    × ((a : Ptr) → t.futures a ≡ settled.futures a)
    × (t.conts ≡ settled.conts)
    × ((a : Ptr) → a ≢ 2 → t.promises a ≡ settled.promises a)
set_result_refused_example =
    set_result_refused host stack base calls calls-IsPlain settled 2 promise ready value
      (omega arith) refl (omega arith) refl (inr refl)

promise_destroy-Broken_example :
    Broken host stack base calls calls-IsPlain two_awaited 2 promise awaited
      (newer ∷ older ∷ [])
      (sleeper ∷ cancelled ∷ [])
      2
      ((4, 71) ∷ (1, 33) ∷ [])
promise_destroy-Broken_example =
    promise_destroy-Broken host stack base calls calls-IsPlain two_awaited 2 promise awaited
      (newer ∷ older ∷ []) (sleeper ∷ cancelled ∷ []) 2 ((4, 71) ∷ (1, 33) ∷ []) (omega arith) refl
      refl two_awaited-IsAwaited refl (omega arith)
