-- ===== src/Scheduler/Names.antt =====
-- ListSchedulerWorkers of src/ufsrv_scheduler/ufsrv_scheduler.c: descriptor, pointer array and names
-- in one block. Memory is a function from offsets in the block to bytes; a name is the list of its
-- bytes, without the closing NUL.
pub mod Slab
use ufsrvrxlib.Base.{
  ℕ, zero, suc, ◌+◌, ◌*◌, Bool, true, false, not, Option, none, some, List, [], ◌∷◌, ◌++◌, ◌==◌,
  if◌then◌else◌, length,
}
use ufsrvrxlib.Scheduler.{Scheduler}
use ufsrvrxlib.Scheduler.Pool.{Pool}

abbrev pub Memory : Type 0
Memory = ℕ → ℕ

pub memcpy : Memory → ℕ → List ℕ → Memory
memcpy m a [] = m
memcpy m a (b ∷ bs) = memcpy (λ x. if x == a then b else m x) (a + 1) bs

-- `collection` is NULL where no worker has a name. The elements are offsets in the block.
pub record Collection : Type 0 where
  pub collection : Option (List ℕ)
  pub collection_sz : ℕ
  pub collection_base_offset : ℕ
  pub total : ℕ
  pub memory : Memory

module _ {Q : Type 0} where
  -- The first pass: how many workers have a name, and the bytes of their names with the NULs.
  pub count_names : List (Scheduler Q) → ℕ × ℕ
  count_names [] = (0, 0)
  count_names (w ∷ ws) =
      let (n, bytes) = count_names ws in
      elim w.name [ none ↦ (n, bytes) | some s ↦ (suc n, bytes + (length s + 1)) ]

  -- The second pass, with `left` elements of the array still to be set: the elements, and memory.
  pub copy_names : (left : ℕ) (str : ℕ) → Memory → List (Scheduler Q) → List ℕ × Memory
  copy_names left str m [] = ([], m)
  copy_names zero str m (w ∷ ws) = ([], m)
  copy_names (suc left) str m (w ∷ ws) =
      let skipped = copy_names (suc left) str m ws in
      elim w.name [
        | none ↦ skipped
        | some s ↦
            let (os, m') = copy_names left (str + (length s + 1)) (memcpy m str (s ++ 0 ∷ [])) ws in
            (str ∷ os, m')
      ]

  -- `descriptor_size` and `pointer_size` are the platform's `sizeof`; `m` is what the block holds
  -- when malloc returns it. `none` is NULL.
  unfoldable pub list_workers :
      (descriptor_size pointer_size : ℕ) (malloc_ok : Bool)
      → Memory
      → Option (Pool Q)
      → Option Collection
  unfolding count_names copy_names memcpy
  list_workers descriptor_size pointer_size malloc_ok m none = none
  list_workers descriptor_size pointer_size malloc_ok m (some p) =
      let (n, str_bytes) = count_names p.workers in
      let arr_bytes = n * pointer_size in
      let (os, m') = copy_names n (descriptor_size + arr_bytes) m p.workers in
      if not malloc_ok
      then none
      else some (record {
        collection = if n == 0 then none else some os;
        collection_sz = n;
        collection_base_offset = 0;
        total = descriptor_size + arr_bytes + str_bytes;
        memory = m';
      })
