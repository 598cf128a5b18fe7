-- ===== src/Future/Combinators/Abandon.antt =====
-- The promise and the output future of a combinator that fails are given up.
use ufsrvrxlib.Base.{◌≡◌, refl, ap, ◌≢◌, ◌∙◌, none, some, [], arith}
use ufsrvrxlib.Future.Interface.{TreiberStack, NodeBase, FutureResult, Host}
use ufsrvrxlib.Future.Heap.{Call, Ptr, null, Future, State, ok}
use ufsrvrxlib.Future.Pending.{IsPending}
use ufsrvrxlib.Future.Deliver.{IsPlain}
use ufsrvrxlib.Future.Detach.{IsPending-IsAwaited}
use ufsrvrxlib.Future.Fulfil.{promise_destroy-Broken}
use ufsrvrxlib.Future.Release.{token_dropped, future_release-last}
use ufsrvrxlib.Future.{epipe, error_result, free_result}
use ufsrvrxlib.Future.Combinators.Derive.{new_future, new_promise}
use ufsrvrxlib.Future.Combinators.{Program, abandon}

module _ {E S B : Type 0} (host : Host E) (stack : TreiberStack S) (base : NodeBase B)
    (call : Call E S B) (plain : IsPlain host call) (program : Program E S B) where
  -- The promise and its future are gone, and all else is as it was.
  pub record Gone (s t : State E S B) (pp fp : Ptr) : Type 0 where
    pub future : t.futures fp ≡ none
    pub promise : t.promises pp ≡ none
    pub other_futures : (a : Ptr) → a ≢ fp → t.futures a ≡ s.futures a
    pub other_promises : (a : Ptr) → a ≢ pp → t.promises a ≡ s.promises a
    pub conts : (a : Ptr) → t.conts a ≡ s.conts a
    pub contexts : t.contexts ≡ s.contexts
    pub env : t.env ≡ s.env

  new-IsPending :
      (s : State E S B) (fp : Ptr)
      → fp ≢ null
      → s.futures fp ≡ some (new_future host stack base call program)
      → IsPending stack base host call s fp (new_future host stack base call program) []
  new-IsPending s fp hf e = record {
    ne_null = hf;
    holds = e;
    incomplete = refl;
    unready = refl;
    unclosed = stack.create-empty.1;
    stacked = stack.create-empty.0;
    queued = tt;
    distinct = tt;
    no_waiter = stack.create-empty.0;
    attached = λ h given. cc;
  }

  unfreed :
      (f : Future S) (r : FutureResult) (env : E)
      → r ≡ error_result epipe
      → f.cancel_token ≡ none
      → token_dropped host stack base f.cancel_token (free_result host stack base r env) ≡ env
  unfreed f r env re te = rw (re, te) refl

  pub abandon-Gone :
      (s : State E S B) (pp fp : Ptr)
      → pp ≢ null
      → fp ≢ null
      → s.promises pp ≡ some (new_promise host stack base call program fp)
      → s.futures fp ≡ some (new_future host stack base call program)
      → (t : State E S B) × (abandon host stack base call program pp fp s ≡ ok tt t)
        × Gone s t pp fp
  unfolding abandon
  abandon-Gone s pp fp hp hf ep ef =
      let broken =
        promise_destroy-Broken host stack base call plain s pp
          (new_promise host stack base call program fp) (new_future host stack base call program) []
          [] 2 s.env hp ep refl
          (IsPending-IsAwaited host stack base call s fp (new_future host stack base call program)
            [] (new-IsPending s fp hf ef))
          refl (omega arith) in
      let (t, ran, (gone, env), others, conts, promises, contexts) =
        future_release-last host stack base broken.last fp broken.last_future hf broken.holds
          broken.emptied.0 broken.emptied.1 broken.count in
      (
        t,
        simp (broken.run, ran),
        record {
          future = gone;
          promise = ap (λ h. h pp) promises ∙ broken.freed;
          other_futures = λ a ne. others a ne ∙ broken.other_futures a ne;
          other_promises = λ a ne. ap (λ h. h a) promises ∙ broken.other_promises a ne;
          conts = λ a. ap (λ h. h a) conts ∙ broken.other_nodes a tt;
          contexts = contexts ∙ broken.contexts;
          env =
              env
              ∙ unfreed broken.last_future broken.last_future.result broken.last.env
                  (ap (λ x. x.0) broken.delivered) broken.token
              ∙ ap (λ x. x.1) broken.delivered;
        },
      )
