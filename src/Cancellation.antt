-- ===== src/Cancellation.antt =====
-- src/ufsrv_cancellation/ufsrv_cancellation.c and ufsrv_cancellation_priv.h, over an explicit heap of
-- tokens and callback nodes. Each function is one thread's run of it; what lies between a lock and its
-- unlock is atomic in the source.
pub mod Heap
pub mod Chain
pub mod Register
pub mod Cancel
pub mod Reclaim
pub mod Withdraw
pub mod Inner
pub mod Race
use ufsrvrxlib.Base.{
  ℕ, zero, suc, ◌+◌, ◌-◌, Bool, true, false, not, Option, none, some, ◌==◌, if◌then◌else◌,
}
use Heap.{
  Ptr, null, Node, Token, State, Run, ok, fault, out_of_fuel, Cmd, pure, ◌>>=◌, ◌>>◌, load_node,
  store_node, load_token, store_token, free_node, free_token, Calls, call_fn,
}

-- `call f c` is what calling the callback `f` on the context `c` does to the rest of the program.
module _ {E : Type 0} (call : Calls E) where
  -- `release_context(context_ptr)`, where it is not NULL.
  abbrev pub call_release : Option ℕ → ℕ → Cmd E (Unit {0})
  call_release none context = pure tt
  call_release (some f) context = call_fn call f context

  -- The loop of `sTokenRelease` over the nodes that are left in the list.
  pub free_nodes : (fuel : ℕ) → Ptr → Cmd E (Unit {0})
  free_nodes zero node = λ s. out_of_fuel
  free_nodes (suc k) node = if node == null then pure tt else do
    n ← load_node node
    call_release n.release_context n.context
    free_node node
    free_nodes k n.next

  -- `sTokenRelease`. The reference dropped is the last if the count was 1.
  unfoldable pub token_release : (fuel : ℕ) → Ptr → Cmd E (Unit {0})
  unfolding free_nodes
  token_release fuel t = do
    k ← load_token t
    store_token t (record k { refcount = k.refcount - 1 })
    if not (k.refcount == 1) then pure tt else do
      k' ← load_token t
      store_token t (record k' { head = null })
      free_nodes fuel k'.head
      free_token t

  -- `sNodeFree`.
  unfoldable pub node_free : (fuel : ℕ) → Ptr → Cmd E (Unit {0})
  unfolding token_release
  node_free fuel cb = do
    n ← load_node cb
    free_node cb
    call_release n.release_context n.context
    token_release fuel n.token

  -- `sNodeDropRef`.
  unfoldable pub node_drop_ref : (fuel : ℕ) → Ptr → Cmd E Bool
  unfolding node_free
  node_drop_ref fuel cb = do
    n ← load_node cb
    store_node cb (record n { refcount = n.refcount - 1 })
    if n.refcount == 1 then node_free fuel cb >> pure true else pure false

  -- `UfsrvCancellationTokenRetainInternal`.
  unfoldable pub token_retain : Ptr → Cmd E (Unit {0})
  token_retain t =
      if t == null
      then pure tt
      else do k ← load_token t; store_token t (record k { refcount = k.refcount + 1 })

  -- `UfsrvCancellationTokenCreate`; `fresh` is what calloc returns.
  unfoldable pub token_create : (fresh : Ptr) (mutex_ok : Bool) → Cmd E Ptr
  token_create fresh mutex_ok =
      if fresh == null then pure null else if not mutex_ok then pure null else do
        store_token fresh (record { refcount = 1; is_cancelled = false; head = null })
        pure fresh

  -- The node is put in front of the token's list.
  unfoldable pub link : (t cb : Ptr) → Cmd E (Unit {0})
  link t cb = do
    k ← load_token t
    n ← load_node cb
    store_node cb (record n { next = k.head })
    if k.head == null
        then pure tt
        else (do old ← load_node k.head; store_node k.head (record old { prev = cb }))
    store_token t (record k { head = cb })
    m ← load_node cb
    store_node cb (record m { active = true })

  unfoldable pub refuse : Ptr → Cmd E (Unit {0})
  refuse cb = do n ← load_node cb; store_node cb (record n { claimed = true; refcount = 1 })

  -- `UfsrvCancellationTokenRegisterEx`; `fresh` is what calloc returns.
  unfoldable pub register_ex :
      (fresh : Ptr)
      → Ptr
      → (callback : Option ℕ) (context : ℕ) (release_context : Option ℕ) → Cmd E Ptr
  unfolding token_retain
  register_ex fresh t none context release_context = pure null
  register_ex fresh t (some f) context release_context =
      if t == null then pure null else if fresh == null then pure null else do
        store_node fresh (record {
          prev = null;
          next = null;
          token = t;
          refcount = 2;
          active = false;
          claimed = false;
          fn = f;
          context = context;
          release_context = release_context;
        })
        token_retain t
        k ← load_token t
        if k.is_cancelled then refuse fresh else link t fresh
        if k.is_cancelled then call_fn call f context else pure tt
        pure fresh

  unfoldable pub register : (fresh : Ptr) → Ptr → (callback : Option ℕ) (context : ℕ) → Cmd E Ptr
  unfolding register_ex
  register fresh t callback context = register_ex fresh t callback context none

  -- The node is taken out of its token's list.
  unfoldable pub unlink : Ptr → Cmd E (Unit {0})
  unlink cb = do
    n ← load_node cb
    if n.prev == null
        then (do k ← load_token n.token; store_token n.token (record k { head = n.next }))
        else (do p ← load_node n.prev; store_node n.prev (record p { next = n.next }))
    if n.next == null
        then pure tt
        else (do q ← load_node n.next; store_node n.next (record q { prev = n.prev }))
    m ← load_node cb
    store_node cb (record m {
      active = false;
      claimed = true;
      prev = null;
      next = null;
      refcount = m.refcount - 1;
    })

  -- `UfsrvCancellationTokenUnregister`.
  unfoldable pub unregister : (fuel : ℕ) → (handle : Ptr) → Cmd E Bool
  unregister fuel handle = if handle == null then pure false else do
    n ← load_node handle
    if n.active then unlink handle else pure tt
    m ← load_node handle
    store_node handle (record m { refcount = m.refcount - 1 })
    if m.refcount == 1 then node_free fuel handle else pure tt
    pure n.active

  -- The first loop of `UfsrvCancellationTokenCancel`, under the lock.
  pub detach : (fuel : ℕ) → Ptr → Cmd E (Unit {0})
  detach zero walk = λ s. out_of_fuel
  detach (suc k) walk = if walk == null then pure tt else do
    n ← load_node walk
    store_node walk (record n { active = false; claimed = true; prev = null })
    detach k n.next

  -- The second loop, behind the unlock.
  pub dispatch : (fuel : ℕ) → Ptr → Cmd E (Unit {0})
  unfolding node_drop_ref
  dispatch zero node = λ s. out_of_fuel
  dispatch (suc k) node = if node == null then pure tt else do
    n ← load_node node
    call_fn call n.fn n.context
    m ← load_node node
    store_node node (record m { next = null })
    _ ← node_drop_ref (suc k) node
    dispatch k n.next

  -- `UfsrvCancellationTokenCancel`.
  unfoldable pub cancel : (fuel : ℕ) → Ptr → Cmd E (Unit {0})
  unfolding detach dispatch
  cancel fuel t = if t == null then pure tt else do
    k ← load_token t
    if k.is_cancelled then pure tt else do
      store_token t (record k { is_cancelled = true; head = null })
      detach fuel k.head
      dispatch fuel k.head

  -- `UfsrvCancellationTokenIsCancelled`.
  unfoldable pub is_token_cancelled : Ptr → Cmd E Bool
  is_token_cancelled t = if t == null then pure false else do k ← load_token t; pure k.is_cancelled

  -- `UfsrvCancellationTokenDestroy`.
  unfoldable pub token_destroy : (fuel : ℕ) → Ptr → Cmd E (Unit {0})
  unfolding token_release
  token_destroy fuel t = if t == null then pure tt else token_release fuel t
