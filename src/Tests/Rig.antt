-- ===== src/Tests/Rig.antt =====
-- A stack that is a list with a flag, and a program whose calls leave a trace.
use ufsrvrxlib.Base.{
  ℕ, suc, ◌-◌, ◌+◌, ◌≡◌, refl, ap, Bool, true, false, not, Option, none, some, List, [], ◌∷◌, ◌++◌,
  arith, ◌==◌,
}
use ufsrvrxlib.Future.Interface.{TreiberStack, NodeBase, Host}
use ufsrvrxlib.Future.Heap.{Call, Cmd, pure, and_then, change_env, ◌>>◌}
use ufsrvrxlib.Future.Pending.{Drops}
use ufsrvrxlib.Future.Release.{release-shared}
use ufsrvrxlib.Future.Promises.{future_release}
use ufsrvrxlib.Future.Deliver.{IsPlain}
use ufsrvrxlib.Future.Combinators.{Program}
use ufsrvrxlib.Future.Combinators.Calls.{run_at, call_at}

abbrev pub Stack : Type 0
Stack = List ℕ × Bool

abbrev pub stack_push : Stack → ℕ → Option Stack
stack_push (l, true) p = none
stack_push (l, false) p = some (p ∷ l, false)

pub stack_push-closed : (s : Stack) (p : ℕ) → s.1 ≡ true → stack_push s p ≡ none
stack_push-closed (l, true) p h = refl
stack_push-closed (l, false) p h = cc

pub stack_push-open :
    (s : Stack) (p : ℕ)
    → s.1 ≡ false
    → (r : Stack) × (stack_push s p ≡ some r) × (r.0 ≡ p ∷ s.0) × (r.1 ≡ false)
stack_push-open (l, true) p h = cc
stack_push-open (l, false) p h = ((p ∷ l, false), refl, refl, refl)

abbrev pub stack : TreiberStack Stack
stack = record {
  create = ([], false);
  push = stack_push;
  steal_all_and_close = λ s. (s.0, ([], true));
  items = λ s. s.0;
  is_closed = λ s. s.1;
  create-empty = (refl, refl);
  push-closed = stack_push-closed;
  push-open = stack_push-open;
  steal-items = λ s. refl;
  steal-closes = λ s. (refl, refl);
}

pub release_last : (n : ℕ) → n ≡ 1 → (n == 1) ≡ true
release_last n h = ground arith

pub release_more : (m n : ℕ) → m ≡ suc (suc n) → ((m == 1) ≡ false) × (m - 1 ≡ suc n)
release_more m n h = ground arith

pub retain_more : (n : ℕ) → n + 1 ≡ suc n
retain_more n = omega arith

abbrev pub base : NodeBase (ℕ × Bool)
base = record {
  init = (2, false);
  claim = λ b. (not b.1, (b.0, true));
  release = λ b. (b.0 == 1, (b.0 - 1, b.1));
  retain = λ b. (b.0 + 1, b.1);
  refs = λ b. b.0;
  claimed = λ b. b.1;
  init-fresh = (refl, refl);
  claim-once = λ b h. (ap not h, refl, refl);
  claim-again = λ b h. (ap not h, refl, refl);
  retain-more = λ b. (retain_more b.0, refl);
  release-last = λ b h. release_last b.0 h;
  release-more = λ b n h. ((release_more b.0 n h).0, (release_more b.0 n h).1, refl);
}

-- Each call is logged: the function called and its argument.
abbrev pub Trace : Type 0
Trace = List (ℕ × ℕ)

abbrev pub host : Host Trace
host = record {
  deliver = λ fn user r env. (r, env ++ (fn, user) ∷ []);
  free_value = λ d v env. env ++ (d, v) ∷ [];
  submit_resume = λ s co env. some (env ++ (s, co) ∷ []);
  write_fd = λ fd env. env ++ (1, fd) ∷ [];
  close_fd = λ fd env. env ++ (2, fd) ∷ [];
  token_retain = λ t env. env ++ (5, t) ∷ [];
  token_destroy = λ t env. env ++ (3, t) ∷ [];
  token_unregister = λ h env. env ++ (4, h) ∷ [];
}

-- A token whose release hook drops a reference of the future at 1.
abbrev pub drop_first : (handle : ℕ) → Cmd Trace Stack (ℕ × Bool) (Unit {0})
drop_first h = future_release host stack base 1 >> change_env (λ env. host.token_unregister h env)

abbrev pub program : Program Trace Stack (ℕ × Bool)
program = record {
  mapper = λ fn value user. pure (elim value [ none ↦ none | some v ↦ some (v + fn) ]);
  flat_mapper = λ fn value user. pure 0;
  recovery = λ fn error user. pure 0;
  action = λ fn value user. change_env (λ env. env ++ (fn, user) ∷ []);
  zipper = λ fn first second user. pure first;
  calloc = pure 0;
  register = λ token future. pure none;
  unregister = drop_first;
}

abbrev pub calls : Call Trace Stack (ℕ × Bool)
calls = call_at host stack base program 3

pub calls-IsPlain : IsPlain host calls
unfolding run_at
calls-IsPlain g user r s = refl

pub calls-Drops : (h : ℕ) → Drops stack base host calls 1 h
calls-Drops h s g e more =
    ap (λ r. and_then r (λ _. change_env (λ env. host.token_unregister h env)))
      (release-shared host stack base s 1 g (omega arith) e (ground arith))
