-- ===== src/Cancellation/Race/Counted.antt =====
-- src/ufsrv_cancellation/ufsrv_cancellation.c: who refers to a node, and when it is freed.
use ufsrvrxlib.Base.{
  ℕ, ◌+◌, ◌≡◌, refl, some, List, [], ◌∷◌, arith, count, count-middle, ◌==◌, if◌then◌else◌,
}
use ufsrvrxlib.Cancellation.Race.{
  Canceller, waiting, calling, dropping, returned, SharedToken, cancel_at, TokenAct, enrol,
  call_late, withdraw, leave, reclaim, cancel_first, cancel_again, cancel_goes_on, TokenReached,
  start_new, after_act,
}
use ufsrvrxlib.Cancellation.Race.Heard.{to_call, IsHeard, TokenReached-IsHeard}

-- The node that Cancel has called and whose reference it is to drop.
abbrev pub to_drop : Canceller → List ℕ
to_drop (dropping x xs) = x ∷ []
to_drop _ = []

module _ (x : ℕ) where
  pub record IsCounted (s : SharedToken) : Type 0 where
    pub counted :
        s.refcount x
        ≡ count x s.held
          + count x s.late
          + count x s.listed
          + count x (to_call s.canceller)
          + count x (to_drop s.canceller)
    pub freed_once :
        count x s.freed + count x s.freeing + (if s.refcount x == 0 then 0 else 1)
        ≡ count x s.registered

  cancel_at-IsCounted :
      (s t : SharedToken) (c : Canceller)
      → c ≡ s.canceller
      → cancel_at c s ≡ some t
      → IsCounted s
      → IsCounted t
  unfolding cancel_at
  cancel_at-IsCounted s t waiting e h v = cc
  cancel_at-IsCounted s t (calling []) e h v = ground arith
  cancel_at-IsCounted s t (calling (y ∷ ys)) e h v = ground arith
  cancel_at-IsCounted s t (dropping y ys) e h v = ground arith
  cancel_at-IsCounted s t returned e h v = cc

  TokenAct-IsCounted : (s t : SharedToken) → TokenAct s t → IsHeard x s → IsCounted s → IsCounted t
  TokenAct-IsCounted s t (enrol y h e) p v = ground arith
  TokenAct-IsCounted s t (call_late xs ys y h e) p v = ground (arith, count-middle x y xs ys)
  TokenAct-IsCounted s t (withdraw xs ys us vs y h l e) p v =
      ground (arith, count-middle x y xs ys, count-middle x y us vs)
  TokenAct-IsCounted s t (leave xs ys y h l e) p v = ground (arith, count-middle x y xs ys)
  TokenAct-IsCounted s t (reclaim xs ys y h e) p v = ground (arith, count-middle x y xs ys)
  TokenAct-IsCounted s t (cancel_first h e) p v = ground arith
  TokenAct-IsCounted s t (cancel_again h e) p v = ground arith
  TokenAct-IsCounted s t (cancel_goes_on h) p v = cancel_at-IsCounted s t s.canceller refl h v

  -- In every reachable state the reference count of a node is the number of those that refer to it: its
  -- handle, the token's list, and Cancel while it is to call it or to drop it. While it is not zero the node
  -- is not freed nor about to be, and once it is zero the node is freed, or about to be, exactly once.
  pub TokenReached-IsCounted : {s : SharedToken} → TokenReached s → IsCounted s
  TokenReached-IsCounted start_new = ground arith
  TokenReached-IsCounted (after_act r h) =
      TokenAct-IsCounted _ _ h (TokenReached-IsHeard x r) (TokenReached-IsCounted r)
