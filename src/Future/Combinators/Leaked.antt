-- ===== src/Future/Combinators/Leaked.antt =====
-- UfsrvFutureFlatMap where the node of its continuation cannot be allocated.
use ufsrvrxlib.Base.Memory.{not_null, other_ptr}
use ufsrvrxlib.Base.{ℕ, ◌≡◌, refl, ◌≢◌, false, none, some, arith}
use ufsrvrxlib.Future.Interface.{TreiberStack, NodeBase, Host}
use ufsrvrxlib.Future.Heap.{Call, Ptr, null, Future, FlatMapContext, a_flat_map, State, ok, write}
use ufsrvrxlib.Future.Deliver.{IsPlain}
use ufsrvrxlib.Future.{then_on}
use ufsrvrxlib.Future.Promises.{promise_create}
use ufsrvrxlib.Future.Combinators.{Program, Fresh, abandon, derive, future_flat_map}
use ufsrvrxlib.Future.Combinators.Abandon.{abandon-Gone}
use ufsrvrxlib.Future.Combinators.Shortage.{IsHalfDenied}
use ufsrvrxlib.Future.Combinators.Denied.{NoTrace, IsUnused, created, untraced}

module _ {E S B : Type 0} (host : Host E) (stack : TreiberStack S) (base : NodeBase B)
    (call : Call E S B) (plain : IsPlain host call) (program : Program E S B) where
  abbrev the_flat_map : Ptr → (mapper user token : ℕ) → FlatMapContext
  the_flat_map pp mapper user token = record {
    out_promise = pp;
    mapper = mapper;
    user = user;
    token = some token;
  }

  -- A reference of the token is taken.
  abbrev pub retaining : State E S B → (token : ℕ) → State E S B
  retaining s token = record s { env = host.token_retain token s.env }

  -- The state once the context is freed again.
  abbrev dropped : State E S B → Fresh S → (mapper user token : ℕ) → State E S B
  dropped s fresh mapper user token =
      record (created host stack base call plain program (retaining s token) fresh) {
        contexts =
            write
              (write s.contexts fresh.context
                (some (a_flat_map (the_flat_map fresh.promise mapper user token))))
              fresh.context none;
      }

  flat_map_without_node :
      (s t : State E S B) (fresh : Fresh S) (p : Ptr) (f : Future S) (mapper user token : ℕ)
      → IsHalfDenied stack fresh
      → fresh.context ≢ null
      → fresh.node ≡ null
      → p ≢ null
      → p ≢ fresh.future
      → s.futures p ≡ some f
      → f.is_ready ≡ false
      → f.cancel_token ≡ some token
      → abandon host stack base call program fresh.promise fresh.future
          (dropped s fresh mapper user token)
        ≡ ok tt t
      → future_flat_map host stack base call program fresh p (some mapper) user s ≡ ok none t
  unfolding future_flat_map derive promise_create then_on
  flat_map_without_node s t fresh p f mapper user token g hc denied hp other e unready held left =
      simp (
        g.continuations,
        g.waiters,
        not_null fresh.future g.future,
        not_null fresh.promise g.promise,
        not_null fresh.context hc,
        not_null p hp,
        other_ptr p fresh.future other,
        e,
        unready,
        held,
        denied,
        left,
      )

  -- `UfsrvFutureFlatMap` on a future that is not ready and has a token, where everything can be allocated but
  -- the node of the continuation: it returns NULL, and every future, promise, node and context is as it was,
  -- but the token keeps the reference that was taken for the context, which nobody holds any more.
  pub future_flat_map-NoTrace :
      (s : State E S B) (fresh : Fresh S) (p : Ptr) (f : Future S) (mapper user token : ℕ)
      → IsUnused host stack base call plain program s fresh
      → IsHalfDenied stack fresh
      → fresh.context ≢ null
      → fresh.node ≡ null
      → p ≢ null
      → p ≢ fresh.future
      → s.futures p ≡ some f
      → f.is_ready ≡ false
      → f.cancel_token ≡ some token
      → (t : State E S B) × (future_flat_map host stack base call program fresh p
            (some mapper)
            user
            s
          ≡ ok none t)
        × NoTrace host stack base call plain program (retaining s token) t
  future_flat_map-NoTrace s fresh p f mapper user token v g hc denied hp other e unready held =
      let u = dropped s fresh mapper user token in
      let (t, ran, gone) =
        abandon-Gone host stack base call plain program u fresh.promise fresh.future g.promise
          g.future (ground arith) (ground arith) in
      (
        t,
        flat_map_without_node s t fresh p f mapper user token g hc denied hp other e unready held
            ran,
        untraced host stack base call plain program (retaining s token) u t fresh
            (record {
              future = v.future;
              promise = v.promise;
              context = v.context;
              stacks = v.stacks;
            })
            refl refl refl (λ a. ground (arith, v.context)) refl gone,
      )
