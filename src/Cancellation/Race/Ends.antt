-- ===== src/Cancellation/Race/Ends.antt =====
-- src/ufsrv_cancellation/ufsrv_cancellation.c: Cancel, run to its end.
use ufsrvrxlib.Base.{
  ℕ, zero, suc, ◌+◌, ◌*◌, ◌<◌, ◌≤◌, ◌≡◌, refl, ap, true, none, some, inl, inr, Option-cases, [],
  ◌∷◌, arith, count, length,
}
use ufsrvrxlib.Cancellation.Race.{
  Canceller, waiting, calling, dropping, returned, SharedToken, cancel_at, cancel_goes_on,
  TokenReached, after_act,
}
use ufsrvrxlib.Cancellation.Race.Heard.{has_begun, TokenReached-IsHeard}

-- What Cancel has left to do.
abbrev pub budget_of : Canceller → ℕ
budget_of waiting = 0
budget_of (calling xs) = 1 + 2 * length xs
budget_of (dropping x xs) = 2 + 2 * length xs
budget_of returned = 0

-- Cancel alone, for at most `k` actions.
unfoldable pub run_cancel : ℕ → SharedToken → SharedToken
run_cancel zero s = s
run_cancel (suc k) s = elim (cancel_at s.canceller s) [ none ↦ s | some t ↦ run_cancel k t ]

-- What Cancel's own actions leave alone.
record Alone (s t : SharedToken) : Type 0 where
  registered : t.registered ≡ s.registered
  late : t.late ≡ s.late
  withdrawn : t.withdrawn ≡ s.withdrawn
  cancelled : t.is_cancelled ≡ s.is_cancelled

Alone-trans : {s t u : SharedToken} → Alone s t → Alone t u → Alone s u
Alone-trans a b = ground arith

cancel_at-Alone :
    (s t : SharedToken) (c : Canceller)
    → c ≡ s.canceller
    → cancel_at c s ≡ some t
    → Alone s t × (budget_of t.canceller < budget_of s.canceller)
unfolding cancel_at
cancel_at-Alone s t waiting e h = cc
cancel_at-Alone s t (calling []) e h = ground arith
cancel_at-Alone s t (calling (y ∷ ys)) e h = ground arith
cancel_at-Alone s t (dropping y ys) e h = ground arith
cancel_at-Alone s t returned e h = cc

stops_at-returned :
    (s : SharedToken) (c : Canceller) → has_begun c ≡ true → cancel_at c s ≡ none → c ≡ returned
unfolding cancel_at
stops_at-returned s waiting b h = cc
stops_at-returned s (calling []) b h = cc
stops_at-returned s (calling (y ∷ ys)) b h = cc
stops_at-returned s (dropping y ys) b h = cc
stops_at-returned s returned b h = refl

record HasReturned (s t : SharedToken) : Type 0 where
  at_end : t.canceller ≡ returned
  reached : TokenReached t
  alone : Alone s t

returned_here :
    (s : SharedToken)
    → TokenReached s
    → s.is_cancelled ≡ true
    → cancel_at s.canceller s ≡ none
    → HasReturned s s
returned_here s r c e = record {
  at_end = stops_at-returned s s.canceller (ground (arith, (TokenReached-IsHeard 0 r).phase)) e;
  reached = r;
  alone = record { registered = refl; late = refl; withdrawn = refl; cancelled = refl };
}

run_cancel-HasReturned :
    (k : ℕ) (s : SharedToken)
    → TokenReached s
    → s.is_cancelled ≡ true
    → budget_of s.canceller ≤ k
    → HasReturned s (run_cancel k s)
unfolding run_cancel
run_cancel-HasReturned zero s r c h = elim (Option-cases (cancel_at s.canceller s)) [
  | inl e ↦ returned_here s r c e
  | inr (t, e) ↦ absurd (omega (arith, (cancel_at-Alone s t s.canceller refl e).1))
]
run_cancel-HasReturned (suc k) s r c h = elim (Option-cases (cancel_at s.canceller s)) [
  | inl e ↦ rw (e, run_cancel) (returned_here s r c e)
  | inr (t, e) ↦
      let (a, less) = cancel_at-Alone s t s.canceller refl e in
      let rest : HasReturned t (run_cancel k t) =
        run_cancel-HasReturned k t (after_act r (cancel_goes_on e)) (ground arith) (omega arith) in
      rw (e, run_cancel)
        (record { at_end = rest.at_end; reached = rest.reached; alone = Alone-trans a rest.alone })
]

-- From any reachable state of a token that is cancelled, the thread whose Cancel came first alone comes to
-- its end within the budget, and then every registration so far is accounted for: its callback was called,
-- once, or it was withdrawn before, or it came late and its own thread is about to call it.
pub cancel_ends :
    (x k : ℕ) (s : SharedToken)
    → TokenReached s
    → s.is_cancelled ≡ true
    → budget_of s.canceller ≤ k
    → ((run_cancel k s).canceller ≡ returned)
      × (count x (run_cancel k s).calls + count x s.withdrawn + count x s.late
          ≡ count x s.registered)
      × (count x (run_cancel k s).calls ≤ 1)
cancel_ends x k s r c h =
    let d : HasReturned s (run_cancel k s) = run_cancel-HasReturned k s r c h in
    let v = TokenReached-IsHeard x d.reached in
    (
      d.at_end,
      ground (arith, v.placed, v.emptied, ap (count x)),
      ground (arith, v.placed, v.single),
    )
