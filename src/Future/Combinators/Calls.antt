-- ===== src/Future/Combinators/Calls.antt =====
-- What a continuation of src/ufsrv_future/ufsrv_future.c does when it is called, by its function. A
-- continuation may complete another future and so call the next; the fuel bounds the depth of that.
use ufsrvrxlib.Base.{ℕ, zero, suc, Option, some}
use ufsrvrxlib.Future.Interface.{TreiberStack, NodeBase, FutureResult, Host}
use ufsrvrxlib.Future.Heap.{
  Fn, user_fn, move_chain_fn, map_fn, flat_map_fn, on_error_fn, do_on_success_fn, all_fn, any_fn,
  zip_first_fn, zip_second_fn, Call, ok, out_of_fuel, Cmd, pure, ◌>>=◌,
}
use ufsrvrxlib.Future.Promises.{move_chain_continuation}
use ufsrvrxlib.Future.Combinators.{
  Program, map_continuation, flat_map_continuation, on_error_continuation,
  do_on_success_continuation,
}
use ufsrvrxlib.Future.Combinators.Gather.{
  all_continuation, any_continuation, zip_first_continuation, zip_second_continuation,
}

module _ {E S B : Type 0} (host : Host E) (stack : TreiberStack S) (base : NodeBase B)
    (program : Program E S B) where
  -- What running continuations by `run` does.
  abbrev pub with_run : (Fn → ℕ → FutureResult → Cmd E S B (Option FutureResult)) → Call E S B
  with_run run = record { run = run; unregister = program.unregister }

  unfoldable pub run_at :
      (fuel : ℕ) → Fn → (user : ℕ) → FutureResult → Cmd E S B (Option FutureResult)
  run_at zero fn user r = λ s. out_of_fuel
  run_at (suc k) (user_fn g) user r = λ s.
      ok (some (host.deliver g user r s.env).0) (record s { env = (host.deliver g user r s.env).1 })
  run_at (suc k) move_chain_fn user r = do
    left ← move_chain_continuation host stack base (with_run (run_at k)) r user
    pure (some left)
  run_at (suc k) map_fn user r =
      map_continuation host stack base (with_run (run_at k)) program r user
  run_at (suc k) flat_map_fn user r =
      flat_map_continuation host stack base (with_run (run_at k)) program r user
  run_at (suc k) on_error_fn user r =
      on_error_continuation host stack base (with_run (run_at k)) program r user
  run_at (suc k) do_on_success_fn user r =
      do_on_success_continuation host stack base (with_run (run_at k)) program r user
  run_at (suc k) all_fn user r =
      all_continuation host stack base (with_run (run_at k)) program r user
  run_at (suc k) any_fn user r =
      any_continuation host stack base (with_run (run_at k)) program r user
  run_at (suc k) zip_first_fn user r =
      zip_first_continuation host stack base (with_run (run_at k)) program r user
  run_at (suc k) zip_second_fn user r =
      zip_second_continuation host stack base (with_run (run_at k)) program r user

  abbrev pub call_at : (fuel : ℕ) → Call E S B
  call_at k = with_run (run_at k)
