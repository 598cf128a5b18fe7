-- ===== src/Scheduler/Pool/Lifecycle.antt =====
-- UfsrvSchedulerPoolCreate: which workers there are.
use ufsrvrxlib.Base.{
  ℕ, zero, suc, ◌+◌, ◌<◌, ◌≡◌, refl, ◌⊎◌, inl, inr, Bool, true, false, ◌&&◌, Option, none, some,
  List, [], ◌∷◌, ◌++◌, arith, length, length-append, is_some,
}
use native.Mathlib.Nat.{add-zero, zero-add}
use ufsrvrxlib.Base.Int.{pos}
use ufsrvrxlib.Scheduler.Queue.{MpscQueue}
use ufsrvrxlib.Scheduler.{Job, Scheduler, create}
use ufsrvrxlib.Scheduler.Pool.{
  Resources, Creation, null, undone, created, create_workers, pool_create,
}

-- Whether one worker can be made.
abbrev pub grants : Resources → Bool
grants r = r.calloc_ok && (r.strdup_ok && is_some r.eventfd)

module _ {Q : Type 0} (mq : MpscQueue Job Q) (snprintf : Option (List ℕ) → ℕ → List ℕ) where
  -- A worker as it is made: named for its index, idle, with nothing queued.
  pub record IsFresh (prefix : Option (List ℕ)) (i : ℕ) (w : Scheduler Q) : Type 0 where
    pub name : w.name ≡ some (snprintf prefix i)
    pub is_running : w.is_running ≡ false
    pub is_started : w.is_started ≡ false
    pub queue : mq.contents w.queue ≡ []

  abbrev pub AllFresh : Option (List ℕ) → ℕ → List (Scheduler Q) → Type 0
  AllFresh prefix i [] = Unit {0}
  AllFresh prefix i (w ∷ ws) = IsFresh prefix i w × AllFresh prefix (suc i) ws

  AllFresh-append :
      (prefix : Option (List ℕ)) (i : ℕ) (ws : List (Scheduler Q)) (w : Scheduler Q)
      → AllFresh prefix i ws
      → IsFresh prefix (i + length ws) w
      → AllFresh prefix i (ws ++ w ∷ [])
  AllFresh-append prefix i [] w h f = (rw (← add-zero i) f, tt)
  AllFresh-append prefix i (v ∷ ws) w h f =
      (h.0, AllFresh-append prefix (suc i) ws w h.1 (rw (← shift) f))
    where
      shift : i + suc (length ws) ≡ suc i + length ws
      shift = omega arith

  abbrev MadeOrNot : Option (List ℕ) → ℕ → Bool → Option (Scheduler Q) → Type 0
  MadeOrNot prefix i granted r =
      ((granted ≡ false) × (r ≡ none))
      ⊎ ((granted ≡ true) × ((w : Scheduler Q) × (r ≡ some w) × IsFresh prefix i w))

  create-MadeOrNot :
      (prefix : Option (List ℕ)) (i : ℕ) (a b : Bool) (c : Option ℕ)
      → MadeOrNot prefix i (a && (b && is_some c)) (create mq a b c (some (snprintf prefix i)))
  unfolding create
  create-MadeOrNot prefix i false b c = inl (refl, refl)
  create-MadeOrNot prefix i true false c = inl (refl, refl)
  create-MadeOrNot prefix i true true none = inl (refl, refl)
  create-MadeOrNot prefix i true true (some fd) = inr (
    refl,
    (
      _,
      refl,
      record { name = refl; is_running = refl; is_started = refl; queue = mq.contents-init },
    ),
  )

  -- What making `n` workers may come to.
  abbrev pub Outcome : (ℕ → Resources) → Option (List ℕ) → ℕ → Creation mq snprintf → Type 0
  Outcome os prefix n null = ⊥
  Outcome os prefix n (undone made) =
      (length made < n) × (grants (os (length made)) ≡ false) × AllFresh prefix 0 made
  Outcome os prefix n (created p) =
      (length p.workers ≡ n)
      × (p.worker_pool_sz ≡ n)
      × (p.next ≡ 0)
      × (p.is_running ≡ false)
      × AllFresh prefix 0 p.workers
      × ((j : ℕ) → j < n → grants (os j) ≡ true)

  create_workers-Outcome :
      (os : ℕ → Resources) (prefix : Option (List ℕ)) (count left : ℕ) (made : List (Scheduler Q))
      → length made + left ≡ count
      → AllFresh prefix 0 made
      → ((j : ℕ) → j < length made → grants (os j) ≡ true)
      → Outcome os prefix count (create_workers mq snprintf os prefix count left (length made) made)
  unfolding create_workers
  create_workers-Outcome os prefix count zero made e f g =
      (omega arith, refl, refl, refl, f, λ j h. g j (omega arith))
  create_workers-Outcome os prefix count (suc left) made e f g =
      elim (create-MadeOrNot prefix (length made) r.calloc_ok r.strdup_ok r.eventfd) [
        | inl (refused, c) ↦ rw (c, create_workers) (omega arith, refused, f)
        | inr (granted, (w, c, fresh)) ↦
            rw (c, create_workers)
              (rw (← grown w) (
                create_workers-Outcome os prefix count left (made ++ w ∷ [])
                  (omega (arith, grown w)) (AllFresh-append prefix 0 made w f (rw zero-add fresh))
                  λ j h. ground (arith, g j, grown w, granted)))
      ]
    where
      r : Resources
      r = os (length made)

      grown : (w : Scheduler Q) → length (made ++ w ∷ []) ≡ length made + 1
      grown w = omega (arith, length-append made (w ∷ []))

  -- `UfsrvSchedulerPoolCreate` with a count of `n + 1`, when the pool itself can be allocated: if
  -- every worker can be made, the pool has exactly that many, each named by `snprintf` for its
  -- index, idle and with an empty queue; otherwise exactly the workers before the first that cannot
  -- be made were made, and these are the ones destroyed.
  pub pool_create-Outcome :
      (os : ℕ → Resources) (prefix : Option (List ℕ)) (n : ℕ)
      → Outcome os prefix (suc n) (pool_create mq snprintf true true os (pos (suc n)) prefix)
  unfolding pool_create
  pool_create-Outcome os prefix n =
      create_workers-Outcome os prefix (suc n) (suc n) [] (omega arith) tt
        (λ j h. absurd (omega arith))
