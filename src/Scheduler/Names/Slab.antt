-- ===== src/Scheduler/Names/Slab.antt =====
-- The layout of the block of ListSchedulerWorkers.
use ufsrvrxlib.Base.{
  ℕ, zero, suc, ◌+◌, ◌*◌, ◌<◌, ◌≤◌, ◌≡◌, refl, ◌∙◌, inl, inr, Option-cases, true, Option, none,
  some, List, [], ◌∷◌, ◌++◌, ◌==◌, if◌then◌else◌, length, arith,
}
use ufsrvrxlib.Scheduler.{Scheduler}
use ufsrvrxlib.Scheduler.Pool.{Pool}
use ufsrvrxlib.Scheduler.Names.{Memory, memcpy, Collection, count_names, copy_names, list_workers}

-- The C string at an offset, which ends before `stop`.
abbrev pub HoldsString : Memory → ℕ → ℕ → List ℕ → Type 0
HoldsString m stop o [] = (m o ≡ 0) × (o < stop)
HoldsString m stop o (c ∷ cs) = (m o ≡ c) × HoldsString m stop (o + 1) cs

-- The strings at these offsets are these names, one behind the other from `start`, all before `stop`.
abbrev pub Holds : Memory → (start stop : ℕ) → List ℕ → List (List ℕ) → Type 0
Holds m start stop [] [] = Unit {0}
Holds m start stop [] (s ∷ ss) = ⊥
Holds m start stop (o ∷ os) [] = ⊥
Holds m start stop (o ∷ os) (s ∷ ss) =
    (o ≡ start) × HoldsString m stop o s × Holds m (start + (length s + 1)) stop os ss

memcpy-below : (m : Memory) (a : ℕ) (bs : List ℕ) (x : ℕ) → x < a → memcpy m a bs x ≡ m x
unfolding memcpy
memcpy-below m a [] x h = refl
memcpy-below m a (b ∷ bs) x h =
    ground (arith, memcpy-below (λ y. if y == a then b else m y) (a + 1) bs x (omega arith))

memcpy-HoldsString :
    (m : Memory) (stop a : ℕ) (s : List ℕ)
    → a + length s < stop
    → HoldsString (memcpy m a (s ++ 0 ∷ [])) stop a s
unfolding memcpy
memcpy-HoldsString m stop a [] h = (ground arith, omega arith)
memcpy-HoldsString m stop a (c ∷ s) h = (
  ground
      (arith, memcpy-below (λ x. if x == a then c else m x) (a + 1) (s ++ 0 ∷ []) a (omega arith)),
  memcpy-HoldsString (λ x. if x == a then c else m x) stop (a + 1) s (omega arith),
)

HoldsString-frame :
    (m g : Memory) (stop a : ℕ) (s : List ℕ)
    → ((x : ℕ) → x < a + (length s + 1) → g x ≡ m x)
    → HoldsString m stop a s
    → HoldsString g stop a s
HoldsString-frame m g stop a [] same h = (same a (omega arith) ∙ h.0, h.1)
HoldsString-frame m g stop a (c ∷ s) same h = (
  same a (omega arith) ∙ h.0,
  HoldsString-frame m g stop (a + 1) s (λ x lt. same x (omega arith)) h.1,
)

-- The state behind one copied name.
abbrev copied : ℕ → Memory → List ℕ → Memory
copied str m s = memcpy m str (s ++ 0 ∷ [])

abbrev pub listed : Option (List ℕ) → List ℕ
listed none = []
listed (some os) = os

-- The elements of the array, none where it is NULL.
abbrev pub elements : Collection → List ℕ
elements c = listed c.collection

-- Where the strings begin: behind the descriptor and the pointer array.
abbrev pub strings_at : (descriptor_size pointer_size : ℕ) → Collection → ℕ
strings_at d z c = d + c.collection_sz * z

module _ {Q : Type 0} where
  -- The names of the workers that have one, in pool order.
  unfoldable pub names_of : List (Scheduler Q) → List (List ℕ)
  names_of [] = []
  names_of (w ∷ ws) = elim w.name [ none ↦ names_of ws | some s ↦ s ∷ names_of ws ]

  count_names-none :
      (w : Scheduler Q) (ws : List (Scheduler Q))
      → w.name ≡ none
      → count_names (w ∷ ws) ≡ count_names ws
  unfolding count_names
  count_names-none w ws e = rw (e, count_names)

  count_names-some :
      (w : Scheduler Q) (ws : List (Scheduler Q)) (s : List ℕ)
      → w.name ≡ some s
      → count_names (w ∷ ws) ≡ (suc (count_names ws).0, (count_names ws).1 + (length s + 1))
  unfolding count_names
  count_names-some w ws s e = rw (e, count_names)

  names_of-none :
      (w : Scheduler Q) (ws : List (Scheduler Q)) → w.name ≡ none → names_of (w ∷ ws) ≡ names_of ws
  unfolding names_of
  names_of-none w ws e = rw (e, names_of)

  names_of-some :
      (w : Scheduler Q) (ws : List (Scheduler Q)) (s : List ℕ)
      → w.name ≡ some s
      → names_of (w ∷ ws) ≡ s ∷ names_of ws
  unfolding names_of
  names_of-some w ws s e = rw (e, names_of)

  copy_names-none :
      (left str : ℕ) (m : Memory) (w : Scheduler Q) (ws : List (Scheduler Q))
      → w.name ≡ none
      → copy_names left str m (w ∷ ws) ≡ copy_names left str m ws
  unfolding copy_names
  copy_names-none zero str m w [] e = refl
  copy_names-none zero str m w (v ∷ ws) e = refl
  copy_names-none (suc left) str m w ws e = rw (e, copy_names)

  copy_names-some :
      (left str : ℕ) (m : Memory) (w : Scheduler Q) (ws : List (Scheduler Q)) (s : List ℕ)
      → w.name ≡ some s
      → copy_names (suc left) str m (w ∷ ws)
        ≡ (let r = copy_names left (str + (length s + 1)) (copied str m s) ws in (str ∷ r.0, r.1))
  unfolding copy_names
  copy_names-some left str m w ws s e = rw (e, copy_names)

  copy_names-below :
      (left str : ℕ) (m : Memory) (ws : List (Scheduler Q)) (x : ℕ)
      → x < str
      → (copy_names left str m ws).1 x ≡ m x
  unfolding copy_names
  copy_names-below left str m [] x h = refl
  copy_names-below zero str m (w ∷ ws) x h = refl
  copy_names-below (suc left) str m (w ∷ ws) x h = elim (Option-cases w.name) [
    | inl e ↦
        rw (copy_names-none (suc left) str m w ws e) (copy_names-below (suc left) str m ws x h)
    | inr (s, e) ↦ rw (copy_names-some left str m w ws s e) (
        copy_names-below left (str + (length s + 1)) (copied str m s) ws x (omega arith)
        ∙ memcpy-below m str (s ++ 0 ∷ []) x h)
  ]

  copy_names-Holds :
      (str stop : ℕ) (m : Memory) (ws : List (Scheduler Q))
      → str + (count_names ws).1 ≤ stop
      → Holds
          (copy_names (count_names ws).0 str m ws).1
          str
          stop
          (copy_names (count_names ws).0 str m ws).0
          (names_of ws)
  copy_names-Holds str stop m [] h = unfold copy_names count_names names_of in tt
  copy_names-Holds str stop m (w ∷ ws) h = elim (Option-cases w.name) [
    | inl e ↦
        rw (count_names-none w ws e, names_of-none w ws e)
          (rw (copy_names-none _ str m w ws e)
            (copy_names-Holds str stop m ws (rw (count_names-none w ws e) at h)))
    | inr (s, e) ↦
        let fits = rw (count_names-some w ws s e) at h in
        rw
          (
            count_names-some w ws s e,
            names_of-some w ws s e,
            copy_names-some (count_names ws).0 str m w ws s e,
          )
          (
            refl,
            HoldsString-frame (copied str m s) _ stop str s
                (λ x lt. copy_names-below (count_names ws).0 _ (copied str m s) ws x lt)
                (memcpy-HoldsString m stop str s (omega arith)),
            copy_names-Holds (str + (length s + 1)) stop (copied str m s) ws (omega arith),
          )
  ]

  count_names-length : (ws : List (Scheduler Q)) → (count_names ws).0 ≡ length (names_of ws)
  unfolding count_names names_of
  count_names-length [] = refl
  count_names-length (w ∷ ws) = ground (arith, count_names-length ws)

  elements-copied :
      (n : ℕ) (ws : List (Scheduler Q)) (str : ℕ) (m : Memory)
      → listed (if n == 0 then none else some (copy_names n str m ws).0) ≡ (copy_names n str m ws).0
  unfolding copy_names
  elements-copied zero [] str m = refl
  elements-copied zero (w ∷ ws) str m = refl
  elements-copied (suc n) ws str m = ground arith

  -- When its allocation is granted, `ListSchedulerWorkers` gives one element for each worker that has
  -- a name, in pool order. The names stand as C strings behind the descriptor and the pointer array,
  -- each right behind the one before, and each element is the offset of its own; every string
  -- ends inside the block, and no byte before the strings is touched by the copying.
  pub list_workers-Holds :
      (d z : ℕ) (m : Memory) (p : Pool Q)
      → (c : Collection) × (list_workers d z true m (some p) ≡ some c)
        × (c.collection_sz ≡ length (names_of p.workers))
        × Holds c.memory (strings_at d z c) c.total (elements c) (names_of p.workers)
        × ((x : ℕ) → x < strings_at d z c → c.memory x ≡ m x)
  unfolding list_workers
  list_workers-Holds d z m p = (
    _,
    refl,
    count_names-length p.workers,
    rw (elements-copied n p.workers str m)
        (copy_names-Holds str (str + (count_names p.workers).1) m p.workers (omega arith)),
    copy_names-below n str m p.workers,
  )
    where
      n : ℕ
      n = (count_names p.workers).0

      str : ℕ
      str = d + n * z
