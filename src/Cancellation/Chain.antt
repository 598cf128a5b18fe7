-- ===== src/Cancellation/Chain.antt =====
-- The doubly linked list of a token: which registrations it holds.
use ufsrvrxlib.Base.{ℕ, ◌≡◌, ◌≢◌, refl, true, false, Option, none, some, List, [], ◌∷◌}
use ufsrvrxlib.Base.Linked.{Links, Linked, Linked-write, unused-Clear, Clear, Separate}
use ufsrvrxlib.Cancellation.Heap.{Ptr, null, Node, Token, State, write}

-- A registration: the address of its node, and what was registered.
pub record Entry : Type 0 where
  pub at : Ptr
  pub fn : ℕ
  pub context : ℕ
  pub release_context : Option ℕ

-- A node of the list, which its handle and the list refer to.
pub record IsLive (t prev : Ptr) (e : Entry) (n : Node) : Type 0 where
  pub back : n.prev ≡ prev
  pub token : n.token ≡ t
  pub two : n.refcount ≡ 2
  pub active : n.active ≡ true
  pub fn : n.fn ≡ e.fn
  pub context : n.context ≡ e.context
  pub release_context : n.release_context ≡ e.release_context

abbrev pub registrations : (t : Ptr) → Links Entry Node
registrations t = record {
  at = λ e. e.at;
  next_of = λ n. n.next;
  set_next = λ n p. record n { next = p };
  Stands = IsLive t;
  next_of-set_next = λ n p. refl;
  set_next-Stands = λ prev e n p live. record {
    back = live.back;
    token = live.token;
    two = live.two;
    active = live.active;
    fn = live.fn;
    context = live.context;
    release_context = live.release_context;
  };
}

-- From `p`, whose node points back to `prev`, the list of `t` holds these registrations and ends.
abbrev pub Chain : (Ptr → Option Node) → (t prev p : Ptr) → List Entry → Type 0
Chain h t prev p [] = p ≡ null
Chain h t prev p (e ∷ es) =
    (p ≡ e.at)
    × (e.at ≢ null)
    × ((n : Node) × (h e.at ≡ some n) × IsLive t prev e n × Chain h t e.at n.next es)

pub Chain-Linked :
    (h : Ptr → Option Node) (t prev p : Ptr) (es : List Entry)
    → Chain h t prev p es
    → Linked (registrations t) h prev p es
Chain-Linked h t prev p [] c = c
Chain-Linked h t prev p (e ∷ es) (q, ne, (n, at, live, rest)) =
    (q, ne, (n, at, live, Chain-Linked h t e.at n.next es rest))

pub Linked-Chain :
    (h : Ptr → Option Node) (t prev p : Ptr) (es : List Entry)
    → Linked (registrations t) h prev p es
    → Chain h t prev p es
Linked-Chain h t prev p [] c = c
Linked-Chain h t prev p (e ∷ es) (q, ne, (n, at, live, rest)) =
    (q, ne, (n, at, live, Linked-Chain h t e.at n.next es rest))

abbrev pub entry_at : Entry → Ptr
entry_at e = e.at

abbrev pub Out : Ptr → List Entry → Type 0
Out a es = Clear entry_at a es

abbrev pub Distinct : List Entry → Type 0
Distinct es = Separate entry_at es

pub Chain-write :
    (h : Ptr → Option Node) (t prev p a : Ptr) (c : Option Node) (es : List Entry)
    → Out a es
    → Chain h t prev p es
    → Chain (write h a c) t prev p es
Chain-write h t prev p a c es out ch =
    Linked-Chain _ t prev p es
      (Linked-write (registrations t) h prev p a c es out (Chain-Linked h t prev p es ch))

-- An address that holds no node is in no list.
pub unused-Out :
    (h : Ptr → Option Node) (t prev p a : Ptr) (es : List Entry)
    → Chain h t prev p es
    → h a ≡ none
    → Out a es
unused-Out h t prev p a es ch unused =
    unused-Clear (registrations t) h prev p a es (Chain-Linked h t prev p es ch) unused

-- A token that is not cancelled, with its list.
pub record IsOpen {E : Type 0} (s : State E) (t : Ptr) (k : Token) (es : List Entry) : Type 0 where
  pub ne_null : t ≢ null
  pub holds : s.tokens t ≡ some k
  pub open_yet : k.is_cancelled ≡ false
  pub chain : Chain s.nodes t null k.head es
  pub distinct : Distinct es
