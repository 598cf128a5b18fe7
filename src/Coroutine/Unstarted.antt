-- ===== src/Coroutine/Unstarted.antt =====
-- sReclaimUnstarted: what it does to the list of the coroutines that have not started.
use ufsrvrxlib.Base.Memory.{not_null, same_ptr, other_ptr}
use ufsrvrxlib.Base.{
  ℕ, zero, suc, ◌<◌, ◌≡◌, refl, sym, ap, ◌≢◌, ◌∙◌, false, Option, none, some, List, [], ◌∷◌, arith,
  All, length, ◌==◌,
}
use ufsrvrxlib.Coroutine.Heap.{Ptr, null, Start, State, Aco, ok, write}
use ufsrvrxlib.Coroutine.{unstarted_unlink, reclaim_unstarted}
use ufsrvrxlib.Coroutine.Roster.{Created, IsUnstarted, Roster, Out, Distinct, Roster-write}

module _ {E : Type 0} (aco : Aco E) where
  -- These coroutines destroyed in order.
  abbrev pub destroy_all : List Created → E → E
  destroy_all [] env = env
  destroy_all (e ∷ es) env = destroy_all es (aco.destroy e.coroutine env)

  abbrev bare : Start → Start
  bare n = record n { prev = null; next = null }

  abbrev after : State E → Ptr → Start → ℕ → (Ptr → Option Start) → State E
  after s p n co h = record s {
    unstarted_head = n.next;
    starts = write (write h p (some (bare n))) p none;
    env = aco.destroy co s.env;
  }

  reclaim-last :
      (k : ℕ) (s : State E) (p : Ptr) (n : Start) (co : ℕ)
      → p ≢ null
      → s.unstarted_head ≡ p
      → s.starts p ≡ some n
      → n.prev ≡ null
      → n.next ≡ null
      → n.coroutine ≡ some co
      → reclaim_unstarted aco (suc k) s ≡ reclaim_unstarted aco k (after s p n co s.starts)
  unfolding reclaim_unstarted unstarted_unlink
  reclaim-last k s p n co hp at e back front c =
      simp (at, not_null p hp, e, back, front, same_ptr p, c)

  reclaim-more :
      (k : ℕ) (s : State E) (p : Ptr) (n q : Start) (co : ℕ)
      → p ≢ null
      → s.unstarted_head ≡ p
      → s.starts p ≡ some n
      → n.prev ≡ null
      → n.next ≢ null
      → n.next ≢ p
      → s.starts n.next ≡ some q
      → n.coroutine ≡ some co
      → reclaim_unstarted aco (suc k) s
        ≡ reclaim_unstarted aco k
            (after s p n co (write s.starts n.next (some (record q { prev = null }))))
  unfolding reclaim_unstarted unstarted_unlink
  reclaim-more k s p n q co hp at e back more apart eq c =
      let differ : (p == n.next) ≡ false = other_ptr p n.next (λ i. apart (sym i)) in
      simp (at, not_null p hp, not_null n.next more, e, back, differ, eq, same_ptr p, c)

  -- What reclaiming the coroutines of a list leaves behind.
  pub record Reclaimed (k : ℕ) (s : State E) (es : List Created) : Type 0 where
    pub last : State E
    pub run : reclaim_unstarted aco k s ≡ ok tt last
    pub emptied : last.unstarted_head ≡ null
    pub destroyed : last.env ≡ destroy_all es s.env
    pub freed : All (λ e. last.starts e.at ≡ none) es
    pub elsewhere : (a : Ptr) → Out a es → last.starts a ≡ s.starts a
    pub thread :
        (last.main_co ≡ s.main_co)
        × (last.share_stack ≡ s.share_stack)
        × (last.initialized ≡ s.initialized)
        × (last.current_scheduler ≡ s.current_scheduler)

  Reclaimed-step :
      (k : ℕ) (s u : State E) (e : Created) (es : List Created)
      → reclaim_unstarted aco (suc k) s ≡ reclaim_unstarted aco k u
      → Out e.at es
      → u.starts e.at ≡ none
      → u.env ≡ aco.destroy e.coroutine s.env
      → ((a : Ptr) → Out a (e ∷ es) → u.starts a ≡ s.starts a)
      → (u.main_co ≡ s.main_co)
        × (u.share_stack ≡ s.share_stack)
        × (u.initialized ≡ s.initialized)
        × (u.current_scheduler ≡ s.current_scheduler)
      → Reclaimed k u es
      → Reclaimed (suc k) s (e ∷ es)
  Reclaimed-step k s u e es step out gone env same kept r = record {
    last = r.last;
    run = step ∙ r.run;
    emptied = r.emptied;
    destroyed = r.destroyed ∙ ap (destroy_all es) env;
    freed = (r.elsewhere e.at out ∙ gone, r.freed);
    elsewhere = λ a away. r.elsewhere a away.1 ∙ same a away;
    thread = (r.thread.0 ∙ kept.0, r.thread.1 ∙ kept.1, r.thread.2 ∙ kept.2, r.thread.3 ∙ kept.3);
  }

  -- The second node stands first once the first is gone.
  Roster-second :
      (s : State E) (e f : Created) (es : List Created) (n m : Start)
      → n.next ≡ f.at
      → f.at ≢ null
      → s.starts f.at ≡ some m
      → IsUnstarted e.at f m
      → Roster s.starts f.at m.next es
      → Distinct (e ∷ f ∷ es)
      → Roster
          (after s e.at n e.coroutine
            (write s.starts n.next (some (record m { prev = null })))).starts
          null
          n.next
          (f ∷ es)
  Roster-second s e f es n m q ne at is rest d =
      let out_next : Out n.next es = rw q d.1.0 in
      (
        q,
        ne,
        (
          record m { prev = null },
          ground (arith, d.0.0),
          record { back = refl; coroutine = is.coroutine; entry = is.entry; arg = is.arg },
          Roster-write _ f.at m.next e.at none es d.0.1 (
              Roster-write _ f.at m.next e.at _ es d.0.1
                (Roster-write s.starts f.at m.next n.next _ es out_next rest)),
        ),
      )

  -- `sReclaimUnstarted`, on a list of coroutines that have not started and with fuel for one round more
  -- than the list is long, ends with no access to memory that is not allocated: it destroys each of
  -- them exactly once, the newest first, frees their nodes and no other, leaves the list empty, and
  -- changes nothing else of the thread.
  pub reclaim_unstarted-Reclaimed :
      (k : ℕ) (s : State E) (es : List Created)
      → Roster s.starts null s.unstarted_head es
      → Distinct es
      → length es < k
      → Reclaimed k s es
  unfolding reclaim_unstarted
  reclaim_unstarted-Reclaimed zero s es ch d h = absurd (omega arith)
  reclaim_unstarted-Reclaimed (suc k) s [] ch d h = record {
    last = s;
    run = simp ch;
    emptied = ch;
    destroyed = refl;
    freed = tt;
    elsewhere = λ a out. refl;
    thread = (refl, refl, refl, refl);
  }
  reclaim_unstarted-Reclaimed (suc k) s (e ∷ []) (q, ne, (n, at, is, rest)) d h =
      let u = after s e.at n e.coroutine s.starts in
      Reclaimed-step k s u e []
        (reclaim-last k s e.at n e.coroutine ne q at is.back rest is.coroutine) tt (ground arith)
        refl (λ a away. ground (arith, away.0)) (refl, refl, refl, refl)
        (reclaim_unstarted-Reclaimed k u [] rest tt (omega arith))
  reclaim_unstarted-Reclaimed (suc k) s (e ∷ f ∷ es)
        (q, ne, (n, at, is, (q', ne', (m, at', is', rest)))) d h =
      let apart : n.next ≢ e.at = ground (arith, d.0.0) in
      let more : n.next ≢ null = ground arith in
      let here : s.starts n.next ≡ some m = rw q' at' in
      let g = write s.starts n.next (some (record m { prev = null })) in
      let u = after s e.at n e.coroutine g in
      Reclaimed-step k s u e (f ∷ es)
        (reclaim-more k s e.at n m e.coroutine ne q at is.back more apart here is.coroutine) d.0
        (ground arith) refl (λ a away. ground (arith, away.0, away.1.0)) (refl, refl, refl, refl)
        (reclaim_unstarted-Reclaimed k u (f ∷ es) (Roster-second s e f es n m q' ne' at' is' rest d)
          d.1 (omega arith))
