-- ===== src/Cancellation/Race.antt =====
-- src/ufsrv_cancellation/ufsrv_cancellation.c: UfsrvCancellationTokenRegisterEx, Unregister and Cancel on
-- one token, by any number of threads at once and in any interleaving. What lies between a lock and its
-- unlock is one step, and so is each call of a callback and each free of a node, with its release hook. A
-- registration that finds no memory changes nothing. The token's own reference count is left out: the
-- threads hold references to it.
pub mod Heard
pub mod Counted
pub mod Ends
use ufsrvrxlib.Base.{
  ℕ, ◌-◌, ◌≡◌, Bool, true, false, Option, none, some, List, [], ◌∷◌, ◌++◌, ◌==◌, if◌then◌else◌,
  count,
}
use ufsrvrxlib.Cancellation.Heap.{write}

-- Where the one thread stands that has set `is_cancelled`: with nodes left to call, with the one that it has
-- called and whose reference it is to drop, returned. `waiting` while nobody has.
pub data Canceller : Type 0 where
  waiting : Canceller
  calling : List ℕ → Canceller
  dropping : ℕ → List ℕ → Canceller
  returned : Canceller

-- Registrations are named by their nodes. `listed` is the token's list, `refcount` the count of each node,
-- `late` the registrations that found the token cancelled and are about to call their callback themselves,
-- `held` the handles that were returned and not unregistered, `freeing` the nodes whose last reference a
-- thread has dropped. The rest are histories: the registrations, the calls of callbacks, the registrations
-- for which Unregister returned true, and the nodes freed.
pub record SharedToken : Type 0 where
  pub is_cancelled : Bool
  pub listed : List ℕ
  pub refcount : ℕ → ℕ
  pub canceller : Canceller
  pub late : List ℕ
  pub held : List ℕ
  pub freeing : List ℕ
  pub registered : List ℕ
  pub calls : List ℕ
  pub withdrawn : List ℕ
  pub freed : List ℕ

-- `n` references of the node `x` dropped, which frees it where they were the last.
abbrev pub drop_refs : (n x : ℕ) → SharedToken → SharedToken
drop_refs n x s = record s {
  refcount = write s.refcount x (s.refcount x - n);
  freeing = if s.refcount x == n then x ∷ s.freeing else s.freeing;
}

-- The next action of UfsrvCancellationTokenCancel behind its lock.
unfoldable pub cancel_at : Canceller → SharedToken → Option SharedToken
cancel_at waiting s = none
cancel_at (calling []) s = some (record s { canceller = returned })
cancel_at (calling (x ∷ xs)) s = some (record s { calls = x ∷ s.calls; canceller = dropping x xs })
cancel_at (dropping x xs) s = some (record (drop_refs 1 x s) { canceller = calling xs })
cancel_at returned s = none

-- UfsrvCancellationTokenRegisterEx of the new node `x`, from its lock to its unlock.
abbrev pub enrolled : (x : ℕ) → SharedToken → SharedToken
enrolled x s =
    if s.is_cancelled
    then record s {
      registered = x ∷ s.registered;
      refcount = write s.refcount x 1;
      late = x ∷ s.late;
    }
    else record s {
      registered = x ∷ s.registered;
      refcount = write s.refcount x 2;
      listed = x ∷ s.listed;
      held = x ∷ s.held;
    }

pub data TokenAct (s t : SharedToken) : Type 0 where
  enrol : (x : ℕ) → count x s.registered ≡ 0 → t ≡ enrolled x s → TokenAct s t
  call_late :
      (xs ys : List ℕ) (x : ℕ)
      → s.late ≡ xs ++ x ∷ ys
      → t ≡ record s { late = xs ++ ys; calls = x ∷ s.calls; held = x ∷ s.held }
      → TokenAct s t
  withdraw :
      (xs ys us vs : List ℕ) (x : ℕ)
      → s.held ≡ xs ++ x ∷ ys
      → s.listed ≡ us ++ x ∷ vs
      → t ≡ record (drop_refs 2 x s) {
        held = xs ++ ys;
        listed = us ++ vs;
        withdrawn = x ∷ s.withdrawn;
      }
      → TokenAct s t
  leave :
      (xs ys : List ℕ) (x : ℕ)
      → s.held ≡ xs ++ x ∷ ys
      → count x s.listed ≡ 0
      → t ≡ record (drop_refs 1 x s) { held = xs ++ ys }
      → TokenAct s t
  reclaim :
      (xs ys : List ℕ) (x : ℕ)
      → s.freeing ≡ xs ++ x ∷ ys
      → t ≡ record s { freeing = xs ++ ys; freed = x ∷ s.freed }
      → TokenAct s t
  cancel_first :
      s.is_cancelled ≡ false
      → t ≡ record s { is_cancelled = true; canceller = calling s.listed; listed = [] }
      → TokenAct s t
  cancel_again : s.is_cancelled ≡ true → t ≡ s → TokenAct s t
  cancel_goes_on : cancel_at s.canceller s ≡ some t → TokenAct s t

-- A token as UfsrvCancellationTokenCreate makes it.
abbrev pub new_token : SharedToken
new_token = record {
  is_cancelled = false;
  listed = [];
  refcount = λ x. 0;
  canceller = waiting;
  late = [];
  held = [];
  freeing = [];
  registered = [];
  calls = [];
  withdrawn = [];
  freed = [];
}

pub data TokenReached : SharedToken → Type 0 where
  start_new : TokenReached new_token
  after_act : {s t : SharedToken} → TokenReached s → TokenAct s t → TokenReached t
