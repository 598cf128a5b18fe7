-- ===== src/Future/Race.antt =====
-- src/ufsrv_future/ufsrv_future.c: sFutureComplete, sFutureThen, the waits of UfsrvFutureGet and
-- UfsrvFutureGetWithCancellation, and the cancel callbacks of a waiter on one future, by any number of
-- threads at once, at the grain of their accesses to shared memory and in any interleaving.
pub mod Flags
pub mod Phase
pub mod Answer
pub mod Once
pub mod Wakes
pub mod Returns
pub mod Ends
use ufsrvrxlib.Base.{
  ℕ, ◌≡◌, Bool, true, false, Option, none, some, List, [], ◌∷◌, ◌++◌, ◌≤◌, ◌+◌, ◌==◌, if◌then◌else◌,
  count,
}
use ufsrvrxlib.Future.Interface.{TreiberStack, FutureResult}
use ufsrvrxlib.Future.Heap.{write}
use ufsrvrxlib.Future.{no_result}

-- Where the one thread stands that has won `is_completed`: with the result to be stored, before the store
-- of the state, before the stack of waiters is closed, with waiters left to claim, with one claimed and to
-- be woken, before the stack of continuations is closed, with continuations left to run, returned.
-- `idle` while nobody has won.
pub data Completer : Type 0 where
  idle : Completer
  storing : FutureResult → Completer
  publishing shutting : Completer
  claiming : List ℕ → Completer
  waking : ℕ → List ℕ → Completer
  closing : Completer
  running : List ℕ → Completer
  finished : Completer

-- A call of a continuation: its registration, the result that it was handed, and what it left in its place.
pub record Called : Type 0 where
  pub at : ℕ
  pub seen : FutureResult
  pub left : FutureResult

-- Registrations and waiters are named by their nodes. `arriving`, `pushing` and `calling` hold the
-- registrations that have not read the state yet, that have read that it is not ready, and that are about to
-- call their continuation themselves; `looking`, `enqueuing` and `blocked` hold the waits that have not read
-- the state, that have read that it is not ready, and whose node is pushed. `cancelling` holds the waiters
-- that a cancel callback has claimed and not woken yet. The rest are histories: the result that the winner
-- was given, the registrations that began and those whose allocation failed, the calls of continuations,
-- the waits that began, the waiters woken by the winner and by a cancellation, the results that waits
-- returned, and the waits that returned ECANCELED. `token_cancelled` says of a wait whether its token is
-- cancelled; it stays false for UfsrvFutureGet, which has none.
pub record Shared (S : Type 0) : Type 0 where
  pub is_completed : Bool
  pub is_consumed : Bool
  pub is_ready : Bool
  pub result : FutureResult
  pub continuations : S
  pub waiters : S
  pub winner : Completer
  pub claimed : ℕ → Bool
  pub token_cancelled : ℕ → Bool
  pub arriving : List ℕ
  pub pushing : List ℕ
  pub calling : List ℕ
  pub looking : List ℕ
  pub enqueuing : List ℕ
  pub blocked : List ℕ
  pub cancelling : List ℕ
  pub answer : Option FutureResult
  pub registered : List ℕ
  pub denied : List ℕ
  pub calls : List Called
  pub awaited : List ℕ
  pub woken : List ℕ
  pub cancelled : List ℕ
  pub returned : List (ℕ × FutureResult)
  pub gave_up : List ℕ

-- `after x c r` is what the continuation `x` leaves where it is handed the result `r` and `is_consumed` is
-- `c`: the result, which a move sets to zero, and `is_consumed`, which `sConsumeOnce` sets.
module _ {S : Type 0} (stack : TreiberStack S)
    (after : ℕ → Bool → FutureResult → FutureResult × Bool) where
  -- A continuation called on the future's own result.
  abbrev pub called : (x : ℕ) → Shared S → Shared S
  called x s = record s {
    calls = record { at = x; seen = s.result; left = (after x s.is_consumed s.result).0 } ∷ s.calls;
    result = (after x s.is_consumed s.result).0;
    is_consumed = (after x s.is_consumed s.result).1;
  }

  abbrev pub at : Shared S → Completer → Shared S
  at s p = record s { winner = p }

  -- The winner's next action from `p`, behind the exchange of `is_completed`. The cancellation handle, that
  -- it gives up before the waiters, is left out.
  unfoldable pub complete_at : Completer → Shared S → Option (Shared S)
  complete_at idle s = none
  complete_at (storing r) s = some (record s { result = r; winner = publishing })
  complete_at publishing s = some (record s { is_ready = true; winner = shutting })
  complete_at shutting s = some (record s {
    waiters = (stack.steal_all_and_close s.waiters).1;
    winner = claiming (stack.steal_all_and_close s.waiters).0;
  })
  complete_at (claiming []) s = some (at s closing)
  complete_at (claiming (w ∷ ws)) s = some (
      if s.claimed w
      then at s (claiming ws)
      else record s { claimed = write s.claimed w true; winner = waking w ws })
  complete_at (waking w ws) s = some (record s { woken = w ∷ s.woken; winner = claiming ws })
  complete_at closing s = some (record s {
    continuations = (stack.steal_all_and_close s.continuations).1;
    winner = running (stack.steal_all_and_close s.continuations).0;
  })
  complete_at (running []) s = some (at s finished)
  complete_at (running (c ∷ cs)) s = some (record (called c s) { winner = running cs })
  complete_at finished s = none

  -- `sFutureComplete`: an exchange that wins, or loses, and what the winner does then.
  pub data Completes (s t : Shared S) : Type 0 where
    win :
        (r : FutureResult)
        → s.is_completed ≡ false
        → t ≡ record s { is_completed = true; winner = storing r; answer = some r }
        → Completes s t
    lose : s.is_completed ≡ true → t ≡ s → Completes s t
    work : complete_at s.winner s ≡ some t → Completes s t

  -- A push that is refused leaves the call to the thread itself.
  abbrev pub pushed : Shared S → (x : ℕ) (rest : List ℕ) → Shared S
  pushed s x rest = elim (stack.push s.continuations x) [
    | none ↦ record s { pushing = rest; calling = x ∷ s.calling }
    | some r ↦ record s { pushing = rest; continuations = r }
  ]

  -- `sFutureThen`, and `sConsumeOnce` by a thread that is to follow the future.
  pub data Registers (s t : Shared S) : Type 0 where
    arrive :
        (x : ℕ)
        → count x s.registered ≡ 0
        → t ≡ record s { registered = x ∷ s.registered; arriving = x ∷ s.arriving }
        → Registers s t
    read_ready :
        (xs ys : List ℕ) (x : ℕ)
        → s.arriving ≡ xs ++ x ∷ ys
        → s.is_ready ≡ true
        → t ≡ record s { arriving = xs ++ ys; calling = x ∷ s.calling }
        → Registers s t
    read_pending :
        (xs ys : List ℕ) (x : ℕ)
        → s.arriving ≡ xs ++ x ∷ ys
        → s.is_ready ≡ false
        → t ≡ record s { arriving = xs ++ ys; pushing = x ∷ s.pushing }
        → Registers s t
    deny :
        (xs ys : List ℕ) (x : ℕ)
        → s.pushing ≡ xs ++ x ∷ ys
        → t ≡ record s { pushing = xs ++ ys; denied = x ∷ s.denied }
        → Registers s t
    push :
        (xs ys : List ℕ) (x : ℕ)
        → s.pushing ≡ xs ++ x ∷ ys
        → t ≡ pushed s x (xs ++ ys)
        → Registers s t
    call :
        (xs ys : List ℕ) (x : ℕ)
        → s.calling ≡ xs ++ x ∷ ys
        → t ≡ record (called x s) { calling = xs ++ ys }
        → Registers s t
    consume : t ≡ record s { is_consumed = true } → Registers s t

  -- A push that is refused returns the result.
  abbrev pub enqueued : Shared S → (x : ℕ) (rest : List ℕ) → Shared S
  enqueued s x rest = elim (stack.push s.waiters x) [
    | none ↦ record s { enqueuing = rest; returned = (x, s.result) ∷ s.returned }
    | some r ↦ record s { enqueuing = rest; waiters = r; blocked = x ∷ s.blocked }
  ]

  -- The wait of `UfsrvFutureGet` and of UfsrvFutureGetWithCancellation, with `sResumeWaiterOnCancel` and
  -- `sWakeBlockingWaiterOnCancel`.
  pub data Waits (s t : Shared S) : Type 0 where
    begin :
        (x : ℕ)
        → count x s.awaited ≡ 0
        → t ≡ record s { awaited = x ∷ s.awaited; looking = x ∷ s.looking }
        → Waits s t
    look_ready :
        (xs ys : List ℕ) (x : ℕ)
        → s.looking ≡ xs ++ x ∷ ys
        → s.is_ready ≡ true
        → t ≡ record s { looking = xs ++ ys; returned = (x, s.result) ∷ s.returned }
        → Waits s t
    look_pending :
        (xs ys : List ℕ) (x : ℕ)
        → s.looking ≡ xs ++ x ∷ ys
        → s.is_ready ≡ false
        → t ≡ record s { looking = xs ++ ys; enqueuing = x ∷ s.enqueuing }
        → Waits s t
    enqueue :
        (xs ys : List ℕ) (x : ℕ)
        → s.enqueuing ≡ xs ++ x ∷ ys
        → t ≡ enqueued s x (xs ++ ys)
        → Waits s t
    cancel_token :
        (x : ℕ) → t ≡ record s { token_cancelled = write s.token_cancelled x true } → Waits s t
    look_cancelled :
        (xs ys : List ℕ) (x : ℕ)
        → s.looking ≡ xs ++ x ∷ ys
        → s.token_cancelled x ≡ true
        → t ≡ record s { looking = xs ++ ys; gave_up = x ∷ s.gave_up }
        → Waits s t
    cancel_claim :
        (xs ys : List ℕ) (x : ℕ)
        → s.blocked ≡ xs ++ x ∷ ys
        → s.token_cancelled x ≡ true
        → s.claimed x ≡ false
        → t ≡ record s { claimed = write s.claimed x true; cancelling = x ∷ s.cancelling }
        → Waits s t
    cancel_wake :
        (xs ys : List ℕ) (x : ℕ)
        → s.cancelling ≡ xs ++ x ∷ ys
        → t ≡ record s { cancelling = xs ++ ys; cancelled = x ∷ s.cancelled }
        → Waits s t
    resume :
        (xs ys : List ℕ) (x : ℕ)
        → s.blocked ≡ xs ++ x ∷ ys
        → 1 ≤ count x s.woken + count x s.cancelled
        → s.token_cancelled x ≡ false
        → t ≡ record s { blocked = xs ++ ys; returned = (x, s.result) ∷ s.returned }
        → Waits s t
    give_up :
        (xs ys : List ℕ) (x : ℕ)
        → s.blocked ≡ xs ++ x ∷ ys
        → 1 ≤ count x s.woken + count x s.cancelled
        → s.token_cancelled x ≡ true
        → t ≡ record s { blocked = xs ++ ys; gave_up = x ∷ s.gave_up }
        → Waits s t

  pub data Act (s t : Shared S) : Type 0 where
    completes : Completes s t → Act s t
    registers : Registers s t → Act s t
    waits : Waits s t → Act s t

  -- A future as UfsrvPromiseCreate makes it.
  abbrev pub created : Shared S
  created = record {
    is_completed = false;
    is_consumed = false;
    is_ready = false;
    result = no_result;
    continuations = stack.create;
    waiters = stack.create;
    winner = idle;
    claimed = λ x. false;
    token_cancelled = λ x. false;
    arriving = [];
    pushing = [];
    calling = [];
    looking = [];
    enqueuing = [];
    blocked = [];
    cancelling = [];
    answer = none;
    registered = [];
    denied = [];
    calls = [];
    awaited = [];
    woken = [];
    cancelled = [];
    returned = [];
    gave_up = [];
  }

  pub data Reached : Shared S → Type 0 where
    here : Reached created
    later : {s t : Shared S} → Reached s → Act s t → Reached t
