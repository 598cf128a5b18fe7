-- ===== src/Tests/Combinators.antt =====
-- Combinators of futures.
use ufsrvrxlib.Base.{
  ◌++◌, Option, true, ℕ, ◌+◌, ◌≡◌, refl, inl, inr, Bool, false, none, some, [], ◌∷◌, arith, ◌==◌,
  if◌then◌else◌,
}
use ufsrvrxlib.Base.Int.{pos}
use ufsrvrxlib.Future.Interface.{FutureResult}
use ufsrvrxlib.Future.Heap.{Future, an_all, a_map, State, ok}
use ufsrvrxlib.Future.Pending.{Registration, IsPending}
use ufsrvrxlib.Future.Awaited.{Awaiting}
use ufsrvrxlib.Future.Detach.{IsAwaited}
use ufsrvrxlib.Future.{no_result}
use ufsrvrxlib.Future.Combinators.{future_flat_map, Fresh, future_map}
use ufsrvrxlib.Future.Combinators.Map.{Mapping, IsMapping}
use ufsrvrxlib.Future.Combinators.Derive.{IsGranted, MappedAfter, future_map-MappedAfter}
use ufsrvrxlib.Future.Combinators.Leaked.{future_flat_map-NoTrace}
use ufsrvrxlib.Future.Combinators.Denied.{IsUnused, NoTrace, future_map-NoTrace}
use ufsrvrxlib.Future.Combinators.All.{IsGathering, Gathered, report_all-Gathered}
use ufsrvrxlib.Tests.Rig.{Stack, stack, base, Trace, host, program, calls, calls-IsPlain}
use ufsrvrxlib.Future.Combinators.Calls.{call_at}
use ufsrvrxlib.Future.Heap.{
  Call, user_fn, do_on_success_fn, DoOnSuccessContext, a_do_on_success, Continuation,
}
use ufsrvrxlib.Future.Combinators.Source.{IsSource, IsOutput}
use ufsrvrxlib.Future.Combinators.Move.{IsAction, IsMovable}
use ufsrvrxlib.Future.Combinators.Handover.{HandedOver, future_complete-HandedOver}

abbrev answer : FutureResult
answer = record { error = pos 0; value = some 42; free_value = some 900 }

abbrev failure : FutureResult
failure = record { error = pos 5; value = none; free_value = none }

abbrev input : Future Stack
input = record {
  is_completed = false;
  is_consumed = false;
  is_ready = false;
  result = no_result;
  continuations = ([], false);
  waiters = ([], false);
  refcount = 2;
  cancel_token = none;
  cancel_handle = none;
}

-- An input at 1, and an output at 3 that the promise at 4 is for.
abbrev world : State Trace Stack (ℕ × Bool)
world = record {
  futures = λ p. if p == 1 then some input else if p == 3 then some input else none;
  promises = λ p. if p == 4 then some (record { future = 3; is_fulfilled = false }) else none;
  conts = λ p. none;
  waiting = λ p. none;
  contexts = λ p.
      if p == 7
      then some (an_all (record { out_promise = 4; remaining = 3; failed = false }))
      else if p == 8
      then some (a_map (record { out_promise = 4; mapper = 500; user = 6; free_value = some 901 }))
      else none;
  env = [];
}

world-IsPending : IsPending stack base host calls world 1 input []
world-IsPending = record {
  ne_null = omega arith;
  holds = refl;
  incomplete = refl;
  unready = refl;
  unclosed = refl;
  stacked = refl;
  queued = tt;
  distinct = tt;
  no_waiter = refl;
  attached = λ h e. cc;
}

-- An output at 3 that nobody has touched.
untouched :
    (call : Call Trace Stack (ℕ × Bool)) (s : State Trace Stack (ℕ × Bool))
    → s.futures 3 ≡ some input
    → IsPending stack base host call s 3 input []
untouched call s e = record {
  ne_null = omega arith;
  holds = e;
  incomplete = refl;
  unready = refl;
  unclosed = refl;
  stacked = refl;
  queued = tt;
  distinct = tt;
  no_waiter = refl;
  attached = λ h given. cc;
}

abbrev mapping : Mapping Trace
mapping fn value user env = (elim value [ none ↦ none | some v ↦ some (v + fn) ], env)

mapping-IsMapping : IsMapping program mapping
mapping-IsMapping g v u s = refl

abbrev fresh : Fresh Stack
fresh = record {
  future = 13;
  promise = 14;
  continuations = some stack.create;
  waiters = some stack.create;
  context = 15;
  node = 16;
}

fresh-IsGranted : IsGranted host stack base calls program world fresh 1
fresh-IsGranted = record {
  future = (omega arith, omega arith);
  promise = omega arith;
  context = omega arith;
  node = omega arith;
  stacks = (refl, refl);
}

future_map-MappedAfter_example :
    MappedAfter host stack base program mapping mapping-IsMapping 1 world fresh 1 500 6
      (some 901)
      answer
future_map-MappedAfter_example =
    future_map-MappedAfter host stack base program mapping mapping-IsMapping 1 world fresh 1 input
      500 6 (some 901) answer fresh-IsGranted world-IsPending refl refl

abbrev nodeless : Fresh Stack
nodeless = record fresh { node = 0 }

nodeless-IsUnused : IsUnused host stack base calls calls-IsPlain program world nodeless
nodeless-IsUnused = record {
  future = refl;
  promise = refl;
  context = refl;
  stacks = (inl refl, inl refl);
}

future_map-NoTrace_example :
    (t : State Trace Stack (ℕ × Bool)) × (future_map host stack base calls program nodeless 1
        (some 500)
        6
        none
        world
      ≡ ok none t)
    × NoTrace host stack base calls calls-IsPlain program world t
future_map-NoTrace_example =
    future_map-NoTrace host stack base calls calls-IsPlain program world nodeless 1 input 500 6 none
      nodeless-IsUnused (inr (inr refl)) (omega arith) (omega arith) refl refl

-- A thread that waits for the output, and a continuation of the program's own on it.
abbrev blocked : Awaiting (ℕ × Bool)
blocked = record {
  at = 30;
  waiter = record {
    base = (2, false);
    coroutine = none;
    scheduler = 0;
    block_fd = some 33;
    cancel_handle = none;
  };
}

abbrev registered : Registration
registered = record { at = 40; fn = 100; user = 7 }

abbrev registered_node : Continuation (ℕ × Bool)
registered_node = record { base = (1, false); fn = user_fn 100; user = 7 }

abbrev output : Future Stack
output = record input { continuations = (40 ∷ [], false); waiters = (30 ∷ [], false) }

abbrev gathering : State Trace Stack (ℕ × Bool)
gathering = record world {
  futures = λ p. if p == 1 then some input else if p == 3 then some output else none;
  conts = λ p. if p == 40 then some registered_node else none;
  waiting = λ p. if p == 30 then some blocked.waiter else none;
}

gathering-IsAwaited :
    IsAwaited host stack base calls gathering 3 output (registered ∷ []) (blocked ∷ []) 2
gathering-IsAwaited = record {
  ne_null = omega arith;
  holds = refl;
  incomplete = refl;
  stacked = refl;
  queued = (
    (
      omega arith,
      (registered_node, refl, record { one = refl; unclaimed = refl; fn = refl; user = refl }),
    ),
    tt,
  );
  distinct = (tt, tt);
  waited = refl;
  ready = ((omega arith, refl, (1, refl)), tt);
  apart = (tt, tt);
  detaches = refl;
}

gathering-IsGathering :
    IsGathering host stack base calls calls-IsPlain program gathering 7
      (record { out_promise = 4; remaining = 3; failed = false })
      (record { future = 3; is_fulfilled = false })
      output
      (registered ∷ [])
      (blocked ∷ [])
      2
      ((1, 33) ∷ [])
gathering-IsGathering = record {
  ne_null = (omega arith, omega arith);
  context = refl;
  unfailed = refl;
  promise = refl;
  unfulfilled = refl;
  awaited = gathering-IsAwaited;
  woken = refl;
  shared = omega arith;
}

report_all-Gathered_example :
    Gathered host stack base calls calls-IsPlain program gathering 7
      (record { out_promise = 4; remaining = 3; failed = false })
      (record { future = 3; is_fulfilled = false })
      output
      (registered ∷ [])
      (blocked ∷ [])
      2
      ((1, 33) ∷ [])
      (answer ∷ failure ∷ answer ∷ [])
report_all-Gathered_example =
    report_all-Gathered host stack base calls calls-IsPlain program gathering 7
      (record { out_promise = 4; remaining = 3; failed = false })
      (record { future = 3; is_fulfilled = false }) output (registered ∷ []) (blocked ∷ []) 2
      ((1, 33) ∷ []) answer (failure ∷ answer ∷ []) gathering-IsGathering refl

abbrev acting : ℕ → Option ℕ → ℕ → Trace → Trace
acting fn value user env = env ++ (fn, user) ∷ []

acting-IsAction : IsAction program acting
acting-IsAction g v u s = refl

abbrev passing_on : DoOnSuccessContext
passing_on = record { out_promise = 4; action = 600; user = 6; in_future = 1 }

abbrev passing_node : Continuation (ℕ × Bool)
passing_node = record { base = (1, false); fn = do_on_success_fn; user = 9 }

-- The future at 1 has its last reference and a continuation that will move its result.
abbrev moving_input : Future Stack
moving_input = record input { refcount = 1; continuations = (5 ∷ [], false) }

abbrev moving_world : State Trace Stack (ℕ × Bool)
moving_world = record world {
  futures = λ p. if p == 1 then some moving_input else if p == 3 then some input else none;
  conts = λ p. if p == 5 then some passing_node else none;
  contexts = λ p. if p == 9 then some (a_do_on_success passing_on) else none;
}

moving-IsSource :
    IsSource host stack base program 1 do_on_success_fn moving_world 1 5 9 moving_input passing_node
moving-IsSource = record {
  ne_null = (omega arith, omega arith, omega arith);
  holds = refl;
  incomplete = refl;
  no_waiter = refl;
  stacked = refl;
  node = refl;
  refs = refl;
  unclaimed = refl;
  continuation = (refl, refl);
  attached = λ h e. cc;
}

moving-IsOutput :
    IsOutput host stack base program 1 moving_world 4
      (record { future = 3; is_fulfilled = false })
      input
      []
moving-IsOutput = record {
  ne_null = omega arith;
  holds = refl;
  fresh = refl;
  pending = untouched (call_at host stack base program 2) moving_world refl;
  shared = omega arith;
}

future_complete-HandedOver_example :
    HandedOver host stack base program acting acting-IsAction 1 moving_world 1 5 9 moving_input
      passing_on
      (record { future = 3; is_fulfilled = false })
      input
      []
      answer
future_complete-HandedOver_example =
    future_complete-HandedOver host stack base program acting acting-IsAction 1 moving_world 5 9
      moving_input passing_node passing_on (record { future = 3; is_fulfilled = false }) input []
      answer moving-IsSource refl refl refl moving-IsOutput (omega arith) tt

-- An input whose result another operator has taken.
abbrev taken_input : Future Stack
taken_input = record moving_input { is_consumed = true }

abbrev taken_world : State Trace Stack (ℕ × Bool)
taken_world = record moving_world {
  futures = λ p. if p == 1 then some taken_input else if p == 3 then some input else none;
}

taken-IsMovable :
    IsMovable host stack base calls calls-IsPlain program taken_world 1 4
      (record { future = 3; is_fulfilled = false })
      input
      taken_input
      []
taken-IsMovable = record {
  input = (omega arith, refl, omega arith);
  ne_null = omega arith;
  promise = refl;
  unfulfilled = refl;
  pending = untouched calls taken_world refl;
  shared = omega arith;
}

abbrev tokened : Future Stack
tokened = record input { cancel_token = some 70 }

abbrev tokened_world : State Trace Stack (ℕ × Bool)
tokened_world = record world { futures = λ p. if p == 1 then some tokened else none }

future_flat_map-NoTrace_example :
    (t : State Trace Stack (ℕ × Bool)) × (future_flat_map host stack base calls program nodeless 1
        (some 500)
        6
        tokened_world
      ≡ ok none t)
    × NoTrace host stack base calls calls-IsPlain program
        (record tokened_world { env = (5, 70) ∷ [] })
        t
future_flat_map-NoTrace_example =
    future_flat_map-NoTrace host stack base calls calls-IsPlain program tokened_world nodeless 1
      tokened 500 6 70
      (record { future = refl; promise = refl; context = refl; stacks = (inl refl, inl refl) })
      (record { future = omega arith; promise = omega arith; continuations = refl; waiters = refl })
      (omega arith) refl (omega arith) (omega arith) refl refl refl
