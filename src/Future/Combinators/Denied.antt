-- ===== src/Future/Combinators/Denied.antt =====
-- UfsrvFutureMap where an allocation fails.
use ufsrvrxlib.Base.Memory.{not_null, other_ptr}
use ufsrvrxlib.Base.{
  ℕ, ◌≡◌, refl, ap, ◌≢◌, ◌∙◌, ◌⊎◌, inl, inr, Bool-cases, true, false, Option, none, some, arith,
  ◌==◌,
}
use ufsrvrxlib.Future.Interface.{TreiberStack, NodeBase, Host}
use ufsrvrxlib.Future.Heap.{
  Call, Fn, map_fn, Ptr, null, Cmd, Context, a_map, Future, State, ok, write,
}
use ufsrvrxlib.Future.Deliver.{IsPlain}
use ufsrvrxlib.Future.{then_on}
use ufsrvrxlib.Future.Promises.{promise_create}
use ufsrvrxlib.Future.Combinators.Derive.{new_future, new_promise}
use ufsrvrxlib.Future.Combinators.{Program, Fresh, abandon, derive, future_map}
use ufsrvrxlib.Future.Combinators.Abandon.{Gone, abandon-Gone}
use ufsrvrxlib.Future.Combinators.Shortage.{
  null-cases, CreationFails, IsDenied, IsHalfDenied, creation-cases, half-cause,
}

-- An entry that was written over an empty one, and is empty again.
unwritten :
    {A : Type 0} (h u t : Ptr → Option A) (p : Ptr) (x : Option A)
    → h p ≡ none
    → u ≡ write h p x
    → t p ≡ none
    → ((a : Ptr) → a ≢ p → t a ≡ u a)
    → (a : Ptr) → t a ≡ h a
unwritten h u t p x unused written gone others a = elim (Bool-cases (p == a)) [
  | inl same ↦ ground arith
  | inr away ↦
      let ne : a ≢ p = λ e. ground arith in
      let left = ap (λ k. k a) written in ground (arith, others a ne)
]

module _ {E S B : Type 0} (host : Host E) (stack : TreiberStack S) (base : NodeBase B)
    (call : Call E S B) (plain : IsPlain host call) (program : Program E S B) where
  -- Nothing that a combinator touches has changed.
  pub record NoTrace (s t : State E S B) : Type 0 where
    pub futures : (a : Ptr) → t.futures a ≡ s.futures a
    pub promises : (a : Ptr) → t.promises a ≡ s.promises a
    pub conts : (a : Ptr) → t.conts a ≡ s.conts a
    pub contexts : (a : Ptr) → t.contexts a ≡ s.contexts a
    pub env : t.env ≡ s.env

  -- What the allocations give is not in use.
  pub record IsUnused (s : State E S B) (fresh : Fresh S) : Type 0 where
    pub future : s.futures fresh.future ≡ none
    pub promise : s.promises fresh.promise ≡ none
    pub context : s.contexts fresh.context ≡ none
    pub stacks :
        ((fresh.continuations ≡ some stack.create) ⊎ (fresh.continuations ≡ none))
        × ((fresh.waiters ≡ some stack.create) ⊎ (fresh.waiters ≡ none))

  create_denied :
      (s : State E S B) (fp pp : Ptr) (cs ws : Option S)
      → (fp ≡ null) ⊎ (pp ≡ null) ⊎ (cs ≡ none) ⊎ (ws ≡ none)
      → promise_create host stack base true fp pp cs ws s ≡ ok none s
  unfolding promise_create
  create_denied s fp pp cs none why = refl
  create_denied s fp pp none (some ws) why = refl
  create_denied s fp pp (some cs) (some ws) why = ground (arith, why)

  abbrev pub created : State E S B → Fresh S → State E S B
  created s fresh = record s {
    futures = write s.futures fresh.future (some (new_future host stack base call program));
    promises =
        write s.promises fresh.promise
          (some (new_promise host stack base call program fresh.future));
  }

  derive_without_context :
      (s t : State E S B) (fresh : Fresh S) (p : Ptr) (fn : Fn) (context : Ptr → Cmd E S B Context)
      → IsHalfDenied stack fresh
      → fresh.context ≡ null
      → abandon host stack base call program fresh.promise fresh.future (created s fresh) ≡ ok tt t
      → derive host stack base call program fresh p fn context s ≡ ok none t
  unfolding derive promise_create
  derive_without_context s t fresh p fn context g denied left = simp (
    g.continuations,
    g.waiters,
    not_null fresh.future g.future,
    not_null fresh.promise g.promise,
    denied,
    left,
  )

  abbrev uncontexted : State E S B → Fresh S → Context → State E S B
  uncontexted s fresh c = record (created s fresh) {
    contexts = write (write s.contexts fresh.context (some c)) fresh.context none;
  }

  derive_without_node :
      (s t : State E S B) (fresh : Fresh S) (p : Ptr) (f : Future S) (fn : Fn)
      (context : Ptr → Cmd E S B Context) (c : Context)
      → IsHalfDenied stack fresh
      → fresh.context ≢ null
      → fresh.node ≡ null
      → p ≢ null
      → p ≢ fresh.future
      → s.futures p ≡ some f
      → f.is_ready ≡ false
      → ((u : State E S B) → context fresh.promise u ≡ ok c u)
      → abandon host stack base call program fresh.promise fresh.future (uncontexted s fresh c)
        ≡ ok tt t
      → derive host stack base call program fresh p fn context s ≡ ok none t
  unfolding derive promise_create then_on
  derive_without_node s t fresh p f fn context c g hc denied hp other e unready makes left = simp (
    g.continuations,
    g.waiters,
    not_null fresh.future g.future,
    not_null fresh.promise g.promise,
    not_null fresh.context hc,
    makes,
    not_null p hp,
    other_ptr p fresh.future other,
    e,
    unready,
    denied,
    left,
  )

  pub untraced :
      (s u t : State E S B) (fresh : Fresh S)
      → IsUnused s fresh
      → u.futures ≡ (created s fresh).futures
      → u.promises ≡ (created s fresh).promises
      → u.conts ≡ s.conts
      → ((a : Ptr) → u.contexts a ≡ s.contexts a)
      → u.env ≡ s.env
      → Gone host stack base call plain program u t fresh.promise fresh.future
      → NoTrace s t
  untraced s u t fresh v futures promises conts contexts env gone = record {
    futures =
        unwritten s.futures u.futures t.futures fresh.future _ v.future futures gone.future
          gone.other_futures;
    promises =
        unwritten s.promises u.promises t.promises fresh.promise _ v.promise promises gone.promise
          gone.other_promises;
    conts = λ a. gone.conts a ∙ ap (λ h. h a) conts;
    contexts = λ a. ap (λ h. h a) gone.contexts ∙ contexts a;
    env = gone.env ∙ env;
  }

  -- A combinator of one future, of which some allocation fails, leaves no trace.
  abbrev Undone : State E S B → Fresh S → Ptr → Fn → (Ptr → Cmd E S B Context) → Type 0
  Undone s fresh p fn context =
      (t : State E S B) × (derive host stack base call program fresh p fn context s ≡ ok none t)
      × NoTrace s t

  derive_uncreated :
      (s : State E S B) (fresh : Fresh S) (p : Ptr) (fn : Fn) (context : Ptr → Cmd E S B Context)
      → CreationFails fresh
      → Undone s fresh p fn context
  unfolding derive
  derive_uncreated s fresh p fn context why = (
    s,
    simp (create_denied s fresh.future fresh.promise fresh.continuations fresh.waiters why),
    record {
      futures = λ a. refl;
      promises = λ a. refl;
      conts = λ a. refl;
      contexts = λ a. refl;
      env = refl;
    },
  )

  derive_half :
      (s : State E S B) (fresh : Fresh S) (p : Ptr) (f : Future S) (fn : Fn)
      (context : Ptr → Cmd E S B Context) (c : Context)
      → IsUnused s fresh
      → IsHalfDenied stack fresh
      → (fresh.context ≡ null) ⊎ (fresh.context ≢ null)
      → (fresh.context ≡ null) ⊎ (fresh.node ≡ null)
      → p ≢ null
      → p ≢ fresh.future
      → s.futures p ≡ some f
      → f.is_ready ≡ false
      → ((u : State E S B) → context fresh.promise u ≡ ok c u)
      → Undone s fresh p fn context
  derive_half s fresh p f fn context c v g (inl denied) cause hp other e unready makes =
      let (t, ran, gone) =
        abandon-Gone host stack base call plain program (created s fresh) fresh.promise fresh.future
          g.promise g.future (ground arith) (ground arith) in
      (
        t,
        derive_without_context s t fresh p fn context g denied ran,
        untraced s (created s fresh) t fresh v refl refl refl (λ a. refl) refl gone,
      )
  derive_half s fresh p f fn context c v g (inr hc) (inl denied) hp other e unready makes =
      ground (arith, hc)
  derive_half s fresh p f fn context c v g (inr hc) (inr denied) hp other e unready makes =
      let (t, ran, gone) =
        abandon-Gone host stack base call plain program (uncontexted s fresh c) fresh.promise
          fresh.future g.promise g.future (ground arith) (ground arith) in
      (
        t,
        derive_without_node s t fresh p f fn context c g hc denied hp other e unready makes ran,
        untraced s (uncontexted s fresh c) t fresh v refl refl refl (λ a. ground (arith, v.context))
            refl gone,
      )

  derive_denied :
      (s : State E S B) (fresh : Fresh S) (p : Ptr) (f : Future S) (fn : Fn)
      (context : Ptr → Cmd E S B Context) (c : Context)
      → IsUnused s fresh
      → IsDenied fresh
      → p ≢ null
      → p ≢ fresh.future
      → s.futures p ≡ some f
      → f.is_ready ≡ false
      → ((u : State E S B) → context fresh.promise u ≡ ok c u)
      → Undone s fresh p fn context
  derive_denied s fresh p f fn context c v denied hp other e unready makes =
      elim (creation-cases stack fresh (null-cases fresh.future) (null-cases fresh.promise)
        v.stacks.0 v.stacks.1) [
          | inl why ↦ derive_uncreated s fresh p fn context why
          | inr g ↦
              derive_half s fresh p f fn context c v g (null-cases fresh.context)
                (half-cause stack fresh g denied) hp other e unready makes
        ]

  -- `UfsrvFutureMap` on a future that is not ready, where any of its allocations fails: it returns NULL and
  -- leaves no trace; every future, promise, node and context is as it was, and nothing was called.
  pub future_map-NoTrace :
      (s : State E S B) (fresh : Fresh S) (p : Ptr) (f : Future S) (mapper user : ℕ)
      (free : Option ℕ)
      → IsUnused s fresh
      → IsDenied fresh
      → p ≢ null
      → p ≢ fresh.future
      → s.futures p ≡ some f
      → f.is_ready ≡ false
      → (t : State E S B) × (future_map host stack base call program fresh p
            (some mapper)
            user
            free
            s
          ≡ ok none t)
        × NoTrace s t
  unfolding future_map
  future_map-NoTrace s fresh p f mapper user free v denied hp other e unready =
      let context : Ptr → Cmd E S B Context = λ pp t.
        ok (a_map (record { out_promise = pp; mapper = mapper; user = user; free_value = free }))
          t in
      let (t, ran, none_left) =
        derive_denied s fresh p f map_fn context
          (a_map (record {
            out_promise = fresh.promise;
            mapper = mapper;
            user = user;
            free_value = free;
          }))
          v denied hp other e unready (λ u. refl) in
      (t, simp (not_null p hp, ran), none_left)
