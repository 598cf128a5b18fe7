-- ===== src/Cancellation/Race/Heard.antt =====
-- src/ufsrv_cancellation/ufsrv_cancellation.c: where a registration is at any moment.
use ufsrvrxlib.Base.{
  ℕ, ◌+◌, ◌≤◌, ◌≡◌, refl, Bool, true, false, some, List, [], ◌∷◌, arith, count, count-middle,
  middle-not_empty,
}
use ufsrvrxlib.Cancellation.Race.{
  Canceller, waiting, calling, dropping, returned, SharedToken, cancel_at, TokenAct, enrol,
  call_late, withdraw, leave, reclaim, cancel_first, cancel_again, cancel_goes_on, TokenReached,
  start_new, after_act,
}

-- The nodes that Cancel has detached and not called yet.
abbrev pub to_call : Canceller → List ℕ
to_call (calling xs) = xs
to_call (dropping x xs) = xs
to_call _ = []

abbrev pub has_begun : Canceller → Bool
has_begun waiting = false
has_begun _ = true

module _ (x : ℕ) where
  pub record IsHeard (s : SharedToken) : Type 0 where
    pub phase : s.is_cancelled ≡ has_begun s.canceller
    pub emptied : s.is_cancelled ≡ true → s.listed ≡ []
    pub single : count x s.registered ≤ 1
    pub placed :
        count x s.registered
        ≡ count x s.listed
          + count x (to_call s.canceller)
          + count x s.late
          + count x s.calls
          + count x s.withdrawn

  cancel_at-IsHeard :
      (s t : SharedToken) (c : Canceller)
      → c ≡ s.canceller
      → cancel_at c s ≡ some t
      → IsHeard s
      → IsHeard t
  unfolding cancel_at
  cancel_at-IsHeard s t waiting e h v = cc
  cancel_at-IsHeard s t (calling []) e h v = ground arith
  cancel_at-IsHeard s t (calling (y ∷ ys)) e h v = ground arith
  cancel_at-IsHeard s t (dropping y ys) e h v = ground arith
  cancel_at-IsHeard s t returned e h v = cc

  TokenAct-IsHeard : (s t : SharedToken) → TokenAct s t → IsHeard s → IsHeard t
  TokenAct-IsHeard s t (enrol y h e) v = ground arith
  TokenAct-IsHeard s t (call_late xs ys y h e) v = ground (arith, count-middle x y xs ys)
  TokenAct-IsHeard s t (withdraw xs ys us vs y h l e) v =
      ground (arith, count-middle x y us vs, middle-not_empty y us vs)
  TokenAct-IsHeard s t (leave xs ys y h l e) v = ground arith
  TokenAct-IsHeard s t (reclaim xs ys y h e) v = ground arith
  TokenAct-IsHeard s t (cancel_first h e) v = ground arith
  TokenAct-IsHeard s t (cancel_again h e) v = ground arith
  TokenAct-IsHeard s t (cancel_goes_on h) v = cancel_at-IsHeard s t s.canceller refl h v

  -- In every reachable state a registration is in exactly one place: in the token's list; detached by Cancel
  -- and not called yet; late, with the thread that registers it on a cancelled token; called, and then once;
  -- or withdrawn, by an Unregister that returned true, and then its callback is never called. While the
  -- token is not cancelled nobody dispatches, and once it is its list is empty.
  pub TokenReached-IsHeard : {s : SharedToken} → TokenReached s → IsHeard s
  TokenReached-IsHeard start_new = ground arith
  TokenReached-IsHeard (after_act r h) = TokenAct-IsHeard _ _ h (TokenReached-IsHeard r)
