-- ===== src/Scheduler/Describe/Document.antt =====
-- The document of DescribeScheduler, as a text that is put together from its parts.
use ufsrvrxlib.Base.{
  ℕ, ◌≡◌, ◌≢◌, ◌⊎◌, ◌==◌, arith, refl, sym, ap, ◌∙◌, inl, inr, Bool, true, false, Option, none,
  some, List, [], ◌∷◌, ◌++◌, if◌then◌else◌, append_assoc, append-nil, map, Bool-cases,
}
use ufsrvrxlib.Base.Text.{codes, same_text}
use ufsrvrxlib.Scheduler.{Scheduler}
use ufsrvrxlib.Scheduler.Pool.{Pool}
use ufsrvrxlib.Scheduler.Describe.{
  Buffer, bool_text, describe_json_string, describe_flag, describe_worker, skips, describe_workers,
  describe_scheduler,
}
use ufsrvrxlib.Scheduler.Describe.Json.{escaped, text-describe_chars}

same_text_sound : (s u : List ℕ) → same_text s u ≡ true → s ≡ u
same_text_sound [] [] h = refl
same_text_sound [] (b ∷ bs) h = cc
same_text_sound (a ∷ as') [] h = cc
same_text_sound (a ∷ as') (b ∷ bs) h = elim (Bool-cases (a == b)) [
  | inl y ↦
      let heads : a ≡ b = ground arith in
      let tails : same_text as' bs ≡ true = ground arith in
      rw heads (ap (λ l. b ∷ l) (same_text_sound as' bs tails))
  | inr n ↦ absurd (ground arith)
]

same_text_refl : (s : List ℕ) → same_text s s ≡ true
same_text_refl [] = refl
same_text_refl (a ∷ as') =
    let heads : (a == a) ≡ true = ground arith in rw heads (same_text_refl as')

module _ {Q : Type 0} where
  -- Of the workers `ws` exactly those are in `vs`, in the same order, that the filter selects: all
  -- where there is none, or else those that have exactly that name.
  abbrev pub IsSelection : Option (List ℕ) → (ws vs : List (Scheduler Q)) → Type 0
  IsSelection none ws vs = vs ≡ ws
  IsSelection (some n) [] vs = vs ≡ []
  IsSelection (some n) (w ∷ ws) vs =
      ((w.name ≡ some n)
        × ((rest : List (Scheduler Q)) × (vs ≡ w ∷ rest) × IsSelection (some n) ws rest))
      ⊎ ((w.name ≢ some n) × IsSelection (some n) ws vs)

  -- The workers that the loop emits.
  selected : Option (List ℕ) → List (Scheduler Q) → List (Scheduler Q)
  selected f [] = []
  selected f (w ∷ ws) = if skips f w then selected f ws else w ∷ selected f ws

  skips-name :
      (n : List ℕ) (name : Option (List ℕ)) (w : Scheduler Q)
      → w.name ≡ name
      → ((skips (some n) w ≡ true) × (name ≢ some n))
        ⊎ ((skips (some n) w ≡ false) × (name ≡ some n))
  unfolding skips
  skips-name n none w e = inl (ground (arith, e), λ h. cc)
  skips-name n (some m) w e = elim (Bool-cases (same_text m n)) [
    | inl y ↦ inr (ground (arith, e, y), ap some (same_text_sound m n y))
    | inr differ ↦ inl (
      ground (arith, e, differ),
      λ h.
          let same : m ≡ n = cc in
          let yes : same_text m n ≡ true = ap (λ l. same_text m l) (sym same) ∙ same_text_refl m in
          absurd (ground arith),
    )
  ]

  selected-IsSelection :
      (f : Option (List ℕ)) (ws : List (Scheduler Q)) → IsSelection f ws (selected f ws)
  unfolding selected skips
  selected-IsSelection none [] = refl
  selected-IsSelection none (w ∷ ws) = ap (λ vs. w ∷ vs) (selected-IsSelection none ws)
  selected-IsSelection (some n) [] = refl
  selected-IsSelection (some n) (w ∷ ws) = elim (skips-name n w.name w refl) [
    | inl (skipped, other) ↦ rw skipped (inr (other, selected-IsSelection (some n) ws))
    | inr (kept, named) ↦
        rw kept (inl (named, (selected (some n) ws, refl, selected-IsSelection (some n) ws)))
  ]

-- Texts with commas between them.
pub commas : List (List ℕ) → List ℕ
commas [] = []
commas (t ∷ []) = t
commas (t ∷ u ∷ ts) = t ++ (codes "," ++ commas (u ∷ ts))

-- `null`, or the name as a JSON string literal.
abbrev pub literal : Option (List ℕ) → List ℕ
literal none = codes "null"
literal (some s) = codes "\"" ++ (escaped s ++ codes "\"")

module _ {B : Type 0} (buf : Buffer B) where
  -- `null` while the id is not known.
  abbrev id_text : Bool → ℕ → List ℕ
  id_text true n = buf.decimal n
  id_text false n = codes "null"

  text-name :
      (bd : B) (s : Option (List ℕ))
      → buf.text (describe_json_string buf bd s) ≡ buf.text bd ++ literal s
  unfolding describe_json_string
  text-name bd none = buf.text-append bd (codes "null")
  text-name bd (some s) = simp (buf.text-append, text-describe_chars buf, append_assoc)

  text-id :
      (bd : B) (is_ready : Bool) (n : ℕ)
      → buf.text (
          if is_ready
          then buf.append bd (codes ",\"worker_id\":" ++ buf.decimal n)
          else buf.append bd (codes ",\"worker_id\":null"))
        ≡ buf.text bd ++ (codes ",\"worker_id\":" ++ id_text is_ready n)
  text-id bd true n = buf.text-append bd (codes ",\"worker_id\":" ++ buf.decimal n)
  text-id bd false n = buf.text-append bd (codes ",\"worker_id\":null")

module _ {Q B : Type 0} (buf : Buffer B) where
  -- The object of one worker.
  abbrev pub object : Scheduler Q → List ℕ
  object w =
      codes "\n    {\"name\":"
      ++ (literal w.name
          ++ (codes ",\"is_running\":"
              ++ (bool_text w.is_running
                  ++ (codes ",\"is_started\":"
                      ++ (bool_text w.is_started
                          ++ (codes ",\"is_joined\":"
                              ++ (bool_text w.is_joined
                                  ++ (codes ",\"is_worker_id_ready\":"
                                      ++ (bool_text w.is_worker_id_ready
                                          ++ (codes ",\"worker_id\":"
                                              ++ (id_text buf w.is_worker_id_ready w.worker_id
                                                  ++ (codes ",\"event_fd\":"
                                                      ++ (buf.decimal w.event_fd
                                                          ++ codes "}")))))))))))))

  describe_worker-Appends :
      (w : Scheduler Q) (bd : B) → buf.text (describe_worker buf bd w) ≡ buf.text bd ++ object w
  unfolding describe_worker describe_flag
  describe_worker-Appends w bd = simp (buf.text-append, text-id buf, text-name buf, append_assoc)

  -- What follows when a worker was emitted already: each object behind a comma.
  abbrev each_after_comma : List (Scheduler Q) → List ℕ
  each_after_comma [] = []
  each_after_comma (w ∷ ws) = codes "," ++ (object w ++ each_after_comma ws)

  text-after_first :
      (bd : B) (f : Option (List ℕ)) (ws : List (Scheduler Q))
      → buf.text (describe_workers buf bd f true ws)
        ≡ buf.text bd ++ each_after_comma (selected f ws)
  unfolding describe_workers selected
  text-after_first bd f [] = sym (append-nil (buf.text bd))
  text-after_first bd f (w ∷ ws) = elim (Bool-cases (skips f w)) [
    | inl y ↦ rw y (text-after_first bd f ws)
    | inr n ↦ rw n (
        text-after_first (describe_worker buf (buf.append bd (codes ",")) w) f ws
        ∙ simp
            (describe_worker-Appends w (buf.append bd (codes ",")), buf.text-append, append_assoc))
  ]

  commas-cons :
      (w : Scheduler Q) (ws : List (Scheduler Q))
      → commas (map object (w ∷ ws)) ≡ object w ++ each_after_comma ws
  unfolding commas
  commas-cons w [] = sym (append-nil (object w))
  commas-cons w (v ∷ ws) = ap (λ t. object w ++ (codes "," ++ t)) (commas-cons v ws)

  text-describe_workers :
      (bd : B) (f : Option (List ℕ)) (ws : List (Scheduler Q))
      → buf.text (describe_workers buf bd f false ws)
        ≡ buf.text bd ++ commas (map object (selected f ws))
  unfolding describe_workers selected commas
  text-describe_workers bd f [] = sym (append-nil (buf.text bd))
  text-describe_workers bd f (w ∷ ws) = elim (Bool-cases (skips f w)) [
    | inl y ↦ rw y (text-describe_workers bd f ws)
    | inr n ↦ rw n (
        text-after_first (describe_worker buf bd w) f ws
        ∙ ap (λ t. t ++ each_after_comma (selected f ws)) (describe_worker-Appends w bd)
        ∙ append_assoc (buf.text bd) (object w) (each_after_comma (selected f ws))
        ∙ ap (λ t. buf.text bd ++ t) (sym (commas-cons w (selected f ws))))
  ]

  -- The head of the document of a pool.
  abbrev pub head_of : Pool Q → List ℕ
  head_of p =
      codes "{\"worker_pool_sz\":"
      ++ (buf.decimal p.worker_pool_sz
          ++ (codes ",\"round_robin_next\":"
              ++ (buf.decimal p.next
                  ++ (codes ",\"pool_is_running\":"
                      ++ (bool_text p.is_running ++ codes ",\"workers\":[")))))

  -- `DescribeScheduler` into a buffer that the caller gives: behind the text that was there it
  -- appends the head, the objects of exactly the workers that the filter selects, in pool order and
  -- with one comma between each two, and the closing brackets. No filter selects all, a filter those
  -- that have exactly that name. An object has the name as a string literal or `null`, the flags, the
  -- worker's id or `null` while it has none, and the event descriptor.
  pub text-describe_scheduler :
      (ok : Bool) (p : Pool Q) (f : Option (List ℕ)) (bd : B)
      → (vs : List (Scheduler Q)) × (d : B) × IsSelection f p.workers vs
        × (describe_scheduler buf ok (some p) f (some bd) ≡ some d)
        × (buf.text d ≡ buf.text bd ++ (head_of p ++ (commas (map object vs) ++ codes "\n]}\n")))
  unfolding describe_scheduler
  text-describe_scheduler ok p f bd = (
    selected f p.workers,
    _,
    selected-IsSelection f p.workers,
    refl,
    simp (
      buf.text-append,
      text-describe_workers (buf.append bd (head_of p)) f p.workers,
      append_assoc,
    ),
  )
