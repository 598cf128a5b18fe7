-- ===== src/Future/Combinators/Move.antt =====
-- sDoOnSuccessContinuation, and the result that it moves from its input to its output.
use ufsrvrxlib.Base.Memory.{not_null}
use ufsrvrxlib.Base.{
  ℕ, ◌≡◌, refl, sym, ◌≢◌, ◌∙◌, ◌-◌, Bool, true, false, Option, none, some, List, [], arith,
  if◌then◌else◌,
}
use ufsrvrxlib.Future.Interface.{TreiberStack, NodeBase, FutureResult, Host}
use ufsrvrxlib.Future.Heap.{
  Call, Ptr, null, DoOnSuccessContext, a_do_on_success, Future, Promise, State, ok, write,
}
use ufsrvrxlib.Future.Pending.{Registration, Out, IsPending, IsPending-same}
use ufsrvrxlib.Future.Deliver.{IsPlain, deliver_all}
use ufsrvrxlib.Future.Complete.{kept_refs, unregistered}
use ufsrvrxlib.Future.{no_result, error_result, consume_once}
use ufsrvrxlib.Future.Promises.{set_error}
use ufsrvrxlib.Future.Combinators.{
  einval, Program, is_success, fail_promise, keep_promise, move_result, do_on_success_continuation,
}
use ufsrvrxlib.Future.Combinators.Keep.{Kept, keep_promise_pending}

-- An action that reads and changes the rest of the program only.
abbrev pub IsAction :
    {E S B : Type 0} → Program E S B → ((fn : ℕ) (value : Option ℕ) (user : ℕ) → E → E) → Type 0
IsAction {E} {S} {B} program acting =
    (g : ℕ) (v : Option ℕ) (u : ℕ) (s : State E S B)
    → program.action g v u s ≡ ok tt (record s { env = acting g v u s.env })

-- What the output gets, and what is written over the input's result, by whether another operator has
-- taken the result before.
abbrev pub moved_to : Bool → FutureResult → FutureResult
moved_to taken r = if taken then error_result einval else r

abbrev pub left_behind : Bool → Option FutureResult
left_behind taken = if taken then none else some no_result

module _ {E S B : Type 0} (host : Host E) (stack : TreiberStack S) (base : NodeBase B)
    (call : Call E S B) (plain : IsPlain host call) (program : Program E S B) where
  abbrev consumed : State E S B → Ptr → Future S → State E S B
  consumed s p g = record s { futures = write s.futures p (some (record g { is_consumed = true })) }

  move_run :
      (s t : State E S B) (p pp : Ptr) (g : Future S) (r : FutureResult) (taken : Bool)
      → p ≢ null
      → s.futures p ≡ some g
      → g.is_consumed ≡ taken
      → keep_promise host stack base call program pp (moved_to taken r) (consumed s p g) ≡ ok tt t
      → move_result host stack base call program p pp r s ≡ ok (left_behind taken) t
  unfolding move_result consume_once fail_promise keep_promise set_error
  move_run s t p pp g r true hp e given kept = simp (not_null p hp, e, given, kept)
  move_run s t p pp g r false hp e given kept = simp (not_null p hp, e, given, kept)

  -- An output that waits for its promise, and the input whose result goes to it.
  pub record IsMovable (s : State E S B) (p pp : Ptr) (q : Promise) (f g : Future S)
      (rs : List Registration) : Type 0 where
    pub input : (p ≢ null) × (s.futures p ≡ some g) × (q.future ≢ p)
    pub ne_null : pp ≢ null
    pub promise : s.promises pp ≡ some q
    pub unfulfilled : q.is_fulfilled ≡ false
    pub pending : IsPending stack base host call s q.future f rs
    pub shared : kept_refs f.cancel_handle f.refcount ≢ 1

  pub consumed-Kept :
      (s : State E S B) (env : E) (p pp : Ptr) (q : Promise) (f g : Future S)
      (rs : List Registration) (r : FutureResult)
      → IsMovable s p pp q f g rs
      → Kept host stack base call plain program
          (record (consumed s p g) { env = env })
          pp
          q
          f
          rs
          []
          (kept_refs f.cancel_handle f.refcount)
          (unregistered host f.cancel_handle env)
          r
  consumed-Kept s env p pp q f g rs r v =
      keep_promise_pending host stack base call plain program
        (record (consumed s p g) { env = env }) pp q f rs r v.ne_null v.promise v.unfulfilled
        (IsPending-same stack base host call s (record (consumed s p g) { env = env }) q.future f rs
          (ground (arith, v.input.2)) refl v.pending)
        v.shared

module _ {E S B : Type 0} (host : Host E) (stack : TreiberStack S) (base : NodeBase B)
    (call : Call E S B) (plain : IsPlain host call) (program : Program E S B)
    (acting : (fn : ℕ) (value : Option ℕ) (user : ℕ) → E → E) (acts : IsAction program acting) where
  -- The environment once the action has been called, which it is on a value only.
  abbrev pub acted : DoOnSuccessContext → FutureResult → E → E
  acted d r env = if is_success r.error then acting d.action r.value d.user env else env

  do_run :
      (s t : State E S B) (c : Ptr) (d : DoOnSuccessContext) (r : FutureResult) (fine : Bool)
      (written : Option FutureResult)
      → c ≢ null
      → s.contexts c ≡ some (a_do_on_success d)
      → is_success r.error ≡ fine
      → move_result host stack base call program d.in_future d.out_promise r
          (record s { env = acted d r s.env })
        ≡ ok written t
      → do_on_success_continuation host stack base call program r c s
        ≡ ok written (record t { contexts = write t.contexts c none })
  unfolding do_on_success_continuation
  do_run s t c d r true written hc e fine moved =
      let moved_now = simp fine at moved in simp (not_null c hc, e, fine, acts, moved_now)
  do_run s t c d r false written hc e fine moved =
      let moved_now = simp fine at moved in simp (not_null c hc, e, fine, moved_now)

  pub record Moved (s : State E S B) (c : Ptr) (d : DoOnSuccessContext) (q : Promise)
      (f g : Future S) (rs : List Registration) (r : FutureResult) : Type 0 where
    pub last : State E S B
    pub output : Future S
    pub run :
        do_on_success_continuation host stack base call program r c s
        ≡ ok (left_behind g.is_consumed) last
    pub holds : last.futures q.future ≡ some output
    pub count : output.refcount ≡ kept_refs f.cancel_handle f.refcount - 1
    pub flags : (output.is_completed ≡ true) × (output.is_ready ≡ true)
    pub delivered :
        (output.result, last.env)
        ≡ deliver_all host rs
            (moved_to g.is_consumed r, unregistered host f.cancel_handle (acted d r s.env))
    pub input : last.futures d.in_future ≡ some (record g { is_consumed = true })
    pub freed : (last.promises d.out_promise ≡ none) × (last.contexts c ≡ none)
    pub other_futures : (a : Ptr) → a ≢ q.future → a ≢ d.in_future → last.futures a ≡ s.futures a
    pub other_nodes : (a : Ptr) → Out a rs → last.conts a ≡ s.conts a

  -- With an action that acts on the rest of the program only: the continuation that
  -- `UfsrvFutureDoOnSuccess` registers, called on a result while its output is pending
  -- with a reference besides the promise's own. The action is called on the value, unless there is an
  -- error. Where no other operator has taken the input's result, the output is completed with it and an
  -- empty result is left to the input; where one has, the output gets EINVAL and the input keeps what it
  -- holds. The output's continuations are called on that exactly once, the newest first; the promise and
  -- the context are freed, and the input is marked as taken.
  pub do_on_success_continuation-Moved :
      (s : State E S B) (c : Ptr) (d : DoOnSuccessContext) (q : Promise) (f g : Future S)
      (rs : List Registration) (r : FutureResult)
      → c ≢ null
      → s.contexts c ≡ some (a_do_on_success d)
      → IsMovable host stack base call plain program s d.in_future d.out_promise q f g rs
      → Moved s c d q f g rs r
  do_on_success_continuation-Moved s c d q f g rs r hc e v =
      let kept =
        consumed-Kept host stack base call plain program s (acted d r s.env) d.in_future
          d.out_promise q f g rs (moved_to g.is_consumed r) v in
      let moved =
        move_run host stack base call plain program (record s { env = acted d r s.env }) kept.last
          d.in_future d.out_promise g r g.is_consumed v.input.0 v.input.1 refl kept.run in
      record {
        last = record (kept.last) { contexts = write kept.last.contexts c none };
        output = kept.last_future;
        run =
            do_run s kept.last c d r (is_success r.error) (left_behind g.is_consumed) hc e refl
              moved;
        holds = kept.holds;
        count = kept.count;
        flags = kept.flags;
        delivered = kept.delivered;
        input = kept.other_futures d.in_future (λ same. v.input.2 (sym same)) ∙ ground arith;
        freed = (kept.freed, ground arith);
        other_futures = λ a aq ap_. kept.other_futures a aq ∙ ground arith;
        other_nodes = kept.other_nodes;
      }
