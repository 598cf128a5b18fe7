-- ===== src/Base/Linked.antt =====
-- Doubly linked lists in a heap: which elements a list holds, and an element somewhere in it.
use Prim.Native.Nat.{ℕ}
use mathlib.Core.Path.{◌≡◌, ◌∙◌}
use mathlib.Core.Logic.{◌≢◌}
use mathlib.Core.List.{List, [], ◌∷◌, ◌++◌}
use mathlib.Core.Option.{Option, none, some}
use native.Mathlib.Omega.{arith}
use ufsrvrxlib.Base.Tests.{◌==◌, if◌then◌else◌}
use ufsrvrxlib.Base.Lists.{All}

module _ {A : Type 0} (at : A → ℕ) where
  abbrev pub Clear : ℕ → List A → Type 0
  Clear a es = All (λ e. at e ≢ a) es

  abbrev pub Separate : List A → Type 0
  Separate [] = Unit {0}
  Separate (e ∷ es) = Clear (at e) es × Separate es

  -- The last of the elements `a ∷ pre`, and those before it.
  abbrev pub last_of : A → List A → ℕ
  last_of a [] = at a
  last_of a (b ∷ pre) = last_of b pre

  abbrev pub before : A → List A → List A
  before a [] = []
  before a (b ∷ pre) = a ∷ before b pre

  pub Clear-last : (x : ℕ) (b : A) (pre ys : List A) → Clear x (b ∷ (pre ++ ys)) → last_of b pre ≢ x
  Clear-last x b [] ys out = out.0
  Clear-last x b (c ∷ pre) ys out = Clear-last x c pre ys out.1

  pub Clear-middle :
      (x : ℕ) (pre : List A) (e : A) (post : List A)
      → Clear x (pre ++ e ∷ post)
      → (at e ≢ x) × Clear x post × Clear x (pre ++ post)
  Clear-middle x [] e post out = (out.0, out.1, out.1)
  Clear-middle x (b ∷ pre) e post out =
      let (ne, away, rest) = Clear-middle x pre e post out.1 in (ne, away, (out.0, rest))

  pub Clear-same : {x y : ℕ} (es : List A) → x ≡ y → Clear y es → Clear x es
  Clear-same es e out = rw e out

  pub Separate-middle :
      (pre : List A) (e : A) (post : List A) → Separate (pre ++ e ∷ post) → Separate (pre ++ post)
  Separate-middle [] e post d = d.1
  Separate-middle (b ∷ pre) e post d =
      ((Clear-middle (at b) pre e post d.0).2, Separate-middle pre e post d.1)

  -- The one before `e`, `e` and those behind it are apart.
  pub apart :
      (a : A) (pre : List A) (e : A) (post : List A)
      → Separate (a ∷ (pre ++ e ∷ post))
      → (at e ≢ last_of a pre) × Clear (last_of a pre) post × Clear (at e) post × Separate post
  apart a [] e post d = (d.0.0, d.0.1, d.1.0, d.1.1)
  apart a (b ∷ pre) e post d = apart b pre e post d.1

  -- A heap that differs at the one before `e`, at `e` and behind it only.
  pub before-same :
      {N : Type 0} (h h' : ℕ → Option N) (a : A) (pre : List A) (e : A) (post : List A)
      → Separate (a ∷ (pre ++ e ∷ post))
      → ((x : ℕ) → last_of a pre ≢ x → at e ≢ x → Clear x post → h' x ≡ h x)
      → All (λ b. h' (at b) ≡ h (at b)) (before a pre)
  before-same h h' a [] e post d same = tt
  before-same h h' a (b ∷ pre) e post d same =
      let (ne, away, rest) = Clear-middle (at a) (b ∷ pre) e post d.0 in
      (
        same (at a) (Clear-last (at a) b pre (e ∷ post) d.0) ne away,
        before-same h h' b pre e post d.1 same,
      )

-- How the nodes of a heap represent elements: `Stands prev e n` is for the node `n` of `e` that points back
-- to `prev`.
pub record Links (A N : Type 0) : Type 1 where
  pub at : A → ℕ
  pub next_of : N → ℕ
  pub set_next : N → ℕ → N
  pub Stands : (prev : ℕ) → A → N → Type 0
  pub next_of-set_next : (n : N) (p : ℕ) → next_of (set_next n p) ≡ p
  pub set_next-Stands :
      (prev : ℕ) (e : A) (n : N) (p : ℕ) → Stands prev e n → Stands prev e (set_next n p)

module _ {A N : Type 0} (links : Links A N) where
  -- From `p`, whose node points back to `prev`, the list holds these elements and ends. 0 is NULL.
  abbrev pub Linked : (ℕ → Option N) → (prev p : ℕ) → List A → Type 0
  Linked h prev p [] = p ≡ 0
  Linked h prev p (e ∷ es) =
      (p ≡ links.at e)
      × (links.at e ≢ 0)
      × ((n : N) × (h (links.at e) ≡ some n)
          × links.Stands prev e n
          × Linked h (links.at e) (links.next_of n) es)

  pub Linked-write :
      (h : ℕ → Option N) (prev p a : ℕ) (c : Option N) (es : List A)
      → Clear links.at a es
      → Linked h prev p es
      → Linked (λ q. if q == a then c else h q) prev p es
  Linked-write h prev p a c [] out ch = ch
  Linked-write h prev p a c (e ∷ es) out (q, ne, (n, at, live, rest)) = (
    q,
    ne,
    (
      n,
      ground (arith, out.0),
      live,
      Linked-write h (links.at e) (links.next_of n) a c es out.1 rest,
    ),
  )

  -- An address that holds no node is in no list.
  pub unused-Clear :
      (h : ℕ → Option N) (prev p a : ℕ) (es : List A)
      → Linked h prev p es
      → h a ≡ none
      → Clear links.at a es
  unused-Clear h prev p a [] ch unused = tt
  unused-Clear h prev p a (e ∷ es) (q, ne, (n, at, live, rest)) unused =
      (ground arith, unused-Clear h (links.at e) (links.next_of n) a es rest unused)

  -- The element `e` in a list behind `a ∷ pre`: its node, the one before it, and how the list is closed
  -- again once that one points past it.
  pub record Located (h : ℕ → Option N) (prev p : ℕ) (a : A) (pre : List A) (e : A) (post : List A)
      : Type 0 where
    pub n : N
    pub q : N
    pub ne_null : (last_of links.at a pre ≢ 0) × (links.at e ≢ 0)
    pub holds : h (links.at e) ≡ some n
    pub live : links.Stands (last_of links.at a pre) e n
    pub rest : Linked h (links.at e) (links.next_of n) post
    pub prior : h (last_of links.at a pre) ≡ some q
    pub relink :
        (h' : ℕ → Option N) (next : ℕ)
        → h' (last_of links.at a pre) ≡ some (links.set_next q next)
        → All (λ b. h' (links.at b) ≡ h (links.at b)) (before links.at a pre)
        → Linked h' (last_of links.at a pre) next post
        → Linked h' prev p (a ∷ (pre ++ post))

  pub locate :
      (h : ℕ → Option N) (prev p : ℕ) (a : A) (pre : List A) (e : A) (post : List A)
      → Linked h prev p (a ∷ (pre ++ e ∷ post))
      → Located h prev p a pre e post
  locate h prev p a [] e post (pa, nea, (na, ata, la, (pe, nee, (n, at, live, rest)))) = record {
    n = n;
    q = na;
    ne_null = (nea, nee);
    holds = at;
    live = live;
    rest = rest;
    prior = ata;
    relink = λ h' next at' same tail. (
      pa,
      nea,
      (
        links.set_next na next,
        at',
        links.set_next-Stands prev a na next la,
        rw (links.next_of-set_next na next) tail,
      ),
    );
  }
  locate h prev p a (b ∷ pre) e post (pa, nea, (na, ata, la, chain)) =
      let l = locate h (links.at a) (links.next_of na) b pre e post chain in
      record {
        n = l.n;
        q = l.q;
        ne_null = l.ne_null;
        holds = l.holds;
        live = l.live;
        rest = l.rest;
        prior = l.prior;
        relink = λ h' next at' same tail.
            (pa, nea, (na, same.0 ∙ ata, la, l.relink h' next at' same.1 tail));
      }
