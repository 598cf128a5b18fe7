-- ===== src/Coroutine/Roster.antt =====
-- The coroutines of a thread that were created and have not started, as a list in its heap.
use ufsrvrxlib.Base.{ℕ, ◌≡◌, refl, ◌≢◌, Option, none, some, List, [], ◌∷◌}
use ufsrvrxlib.Base.Linked.{Links, Linked, Linked-write, unused-Clear, Clear, Separate}
use ufsrvrxlib.Coroutine.Heap.{Ptr, null, Start, write}

-- A coroutine that has not started: the address of its node, and what it was created with.
pub record Created : Type 0 where
  pub at : Ptr
  pub coroutine : ℕ
  pub entry : ℕ
  pub arg : ℕ

pub record IsUnstarted (prev : Ptr) (e : Created) (n : Start) : Type 0 where
  pub back : n.prev ≡ prev
  pub coroutine : n.coroutine ≡ some e.coroutine
  pub entry : n.entry ≡ e.entry
  pub arg : n.arg ≡ e.arg

-- From `p`, whose node points back to `prev`, the list holds these coroutines and ends.
abbrev pub Roster : (Ptr → Option Start) → (prev p : Ptr) → List Created → Type 0
Roster h prev p [] = p ≡ null
Roster h prev p (e ∷ es) =
    (p ≡ e.at)
    × (e.at ≢ null)
    × ((n : Start) × (h e.at ≡ some n) × IsUnstarted prev e n × Roster h e.at n.next es)

abbrev pub unstarted : Links Created Start
unstarted = record {
  at = λ e. e.at;
  next_of = λ n. n.next;
  set_next = λ n p. record n { next = p };
  Stands = IsUnstarted;
  next_of-set_next = λ n p. refl;
  set_next-Stands = λ prev e n p is. record {
    back = is.back;
    coroutine = is.coroutine;
    entry = is.entry;
    arg = is.arg;
  };
}

pub Roster-Linked :
    (h : Ptr → Option Start) (prev p : Ptr) (es : List Created)
    → Roster h prev p es
    → Linked unstarted h prev p es
Roster-Linked h prev p [] c = c
Roster-Linked h prev p (e ∷ es) (q, ne, (n, at, is, rest)) =
    (q, ne, (n, at, is, Roster-Linked h e.at n.next es rest))

pub Linked-Roster :
    (h : Ptr → Option Start) (prev p : Ptr) (es : List Created)
    → Linked unstarted h prev p es
    → Roster h prev p es
Linked-Roster h prev p [] c = c
Linked-Roster h prev p (e ∷ es) (q, ne, (n, at, is, rest)) =
    (q, ne, (n, at, is, Linked-Roster h e.at n.next es rest))

abbrev pub created_at : Created → Ptr
created_at e = e.at

abbrev pub Out : Ptr → List Created → Type 0
Out a es = Clear created_at a es

abbrev pub Distinct : List Created → Type 0
Distinct es = Separate created_at es

pub Roster-write :
    (h : Ptr → Option Start) (prev p a : Ptr) (c : Option Start) (es : List Created)
    → Out a es
    → Roster h prev p es
    → Roster (write h a c) prev p es
Roster-write h prev p a c es out ch =
    Linked-Roster _ prev p es
      (Linked-write unstarted h prev p a c es out (Roster-Linked h prev p es ch))

pub unused-Out :
    (h : Ptr → Option Start) (prev p a : Ptr) (es : List Created)
    → Roster h prev p es
    → h a ≡ none
    → Out a es
unused-Out h prev p a es ch unused =
    unused-Clear unstarted h prev p a es (Roster-Linked h prev p es ch) unused
