-- ===== src/Tests/Tokens.antt =====
-- A token with two registrations, in a heap where the callbacks leave a trace.
use ufsrvrxlib.Base.{
  ℕ, refl, true, false, none, some, List, [], ◌∷◌, ◌++◌, arith, ◌==◌, if◌then◌else◌,
}
use ufsrvrxlib.Cancellation.Heap.{Ptr, Node, Token, State, Calls}
use ufsrvrxlib.Cancellation.Chain.{Entry, IsOpen}
use ufsrvrxlib.Cancellation.Register.{Registered, register-Registered}
use ufsrvrxlib.Cancellation.Cancel.{Cancelled, cancel-Cancelled}
use ufsrvrxlib.Cancellation.Withdraw.{Withdrawn}
use ufsrvrxlib.Cancellation.Inner.{unregister_live}

abbrev Trace : Type 0
Trace = List (ℕ × ℕ)

abbrev log_call : Calls Trace
log_call f c trace = trace ++ (f, c) ∷ []

abbrev newer : Entry
newer = record { at = 2; fn = 100; context = 7; release_context = some 300 }

abbrev older : Entry
older = record { at = 3; fn = 101; context = 8; release_context = none }

abbrev newest : Entry
newest = record { at = 4; fn = 102; context = 9; release_context = none }

abbrev node_of : Entry → (prev next : Ptr) → Node
node_of e prev next = record {
  prev = prev;
  next = next;
  token = 1;
  refcount = 2;
  active = true;
  claimed = false;
  fn = e.fn;
  context = e.context;
  release_context = e.release_context;
}

abbrev token : Token
token = record { refcount = 3; is_cancelled = false; head = 2 }

abbrev listed : State Trace
listed = record {
  nodes = λ p.
      if p == 2
      then some (node_of newer 0 3)
      else if p == 3
      then some (node_of older 2 0)
      else none;
  tokens = λ p. if p == 1 then some token else none;
  env = [];
}

listed-IsOpen : IsOpen listed 1 token (newer ∷ older ∷ [])
listed-IsOpen = record {
  ne_null = omega arith;
  holds = refl;
  open_yet = refl;
  chain = (
    refl,
    omega arith,
    (
      node_of newer 0 3,
      refl,
      record {
        back = refl;
        token = refl;
        two = refl;
        active = refl;
        fn = refl;
        context = refl;
        release_context = refl;
      },
      (
        refl,
        omega arith,
        (
          node_of older 2 0,
          refl,
          record {
            back = refl;
            token = refl;
            two = refl;
            active = refl;
            fn = refl;
            context = refl;
            release_context = refl;
          },
          refl,
        ),
      ),
    ),
  );
  distinct = ((omega arith, tt), (tt, tt));
}

cancel-Cancelled_example : Cancelled log_call 3 listed 1 token (newer ∷ older ∷ [])
cancel-Cancelled_example =
    cancel-Cancelled log_call 3 listed 1 token (newer ∷ older ∷ []) listed-IsOpen (omega arith)

register-Registered_example :
    (s' : State Trace) × Registered log_call listed s' 1 token newest (newer ∷ older ∷ [])
register-Registered_example =
    register-Registered log_call listed 1 token newest (newer ∷ older ∷ []) listed-IsOpen
      (omega arith) refl

abbrev spent_node : Node
spent_node = record (node_of newer 0 0) { refcount = 1; active = false; claimed = true }

abbrev fired : State Trace
fired = record listed {
  nodes = λ p. if p == 2 then some spent_node else none;
  tokens = λ p. if p == 1 then some (record token { is_cancelled = true; head = 0 }) else none;
}

unregister_live_example : Withdrawn log_call 1 listed 1 token older (newer ∷ [])
unregister_live_example =
    unregister_live log_call 1 listed 1 token (newer ∷ []) older [] listed-IsOpen (omega arith)
