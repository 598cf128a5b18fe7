-- ===== src/Scheduler/Describe.antt =====
-- DescribeScheduler of src/ufsrv_scheduler/ufsrv_scheduler.c and the functions below it. A byte
-- string is a list of its bytes, without the closing NUL.
pub mod Json
pub mod Document
use ufsrvrxlib.Base.{
  ℕ, ◌+◌, Bool, true, false, not, Option, none, some, List, [], ◌∷◌, ◌++◌, ◌==◌, ◌≡◌, refl,
  if◌then◌else◌,
}
use ufsrvrxlib.Base.Text.{codes, same_text}
use ufsrvrxlib.Scheduler.{Scheduler}
use ufsrvrxlib.Scheduler.Pool.{Pool}

-- The buffer of uflib (`buffer_descriptor.h`): what BufferDescriptorAppendFormatted has formatted is
-- appended to its text; `decimal` is how it formats `%d`, `%u` and `%lu`.
pub record Buffer (B : Type 0) : Type 0 where
  pub init : B
  pub append : B → List ℕ → B
  pub decimal : ℕ → List ℕ
  pub text : B → List ℕ
  pub text-init : text init ≡ []
  pub text-append : (b : B) (s : List ℕ) → text (append b s) ≡ text b ++ s

abbrev pub text_buffer : Buffer (List ℕ)
text_buffer = record {
  init = [];
  append = λ b s. b ++ s;
  decimal = λ n. (n + 48) ∷ [];
  text = λ b. b;
  text-init = refl;
  text-append = λ b s. refl;
}

-- The cases of the switch.
unfoldable pub escape : ℕ → List ℕ
escape c =
    if c == b'"'
    then codes "\\\""
    else if c == b'\\'
    then codes "\\\\"
    else if c == b'\n'
    then codes "\\n"
    else if c == b'\t'
    then codes "\\t"
    else c ∷ []

abbrev pub bool_text : Bool → List ℕ
bool_text true = codes "true"
bool_text false = codes "false"

module _ {B : Type 0} (buf : Buffer B) where
  -- The loop of `sDescribeJsonString`.
  pub describe_chars : B → List ℕ → B
  unfolding escape
  describe_chars bd [] = bd
  describe_chars bd (c ∷ cs) = describe_chars (buf.append bd (escape c)) cs

  unfoldable pub describe_json_string : B → Option (List ℕ) → B
  unfolding describe_chars
  describe_json_string bd none = buf.append bd (codes "null")
  describe_json_string bd (some s) =
      buf.append (describe_chars (buf.append bd (codes "\"")) s) (codes "\"")

  pub describe_flag : B → List ℕ → Bool → B
  describe_flag bd key flag = buf.append bd (key ++ bool_text flag)

module _ {Q : Type 0} where
  -- The test that skips a worker.
  pub skips : Option (List ℕ) → Scheduler Q → Bool
  skips none s = false
  skips (some n) s = elim s.name [ none ↦ true | some m ↦ not (same_text m n) ]

module _ {Q B : Type 0} (buf : Buffer B) where
  unfoldable pub describe_worker : B → Scheduler Q → B
  unfolding describe_flag describe_json_string
  describe_worker b0 s =
      let b1 = buf.append b0 (codes "\n    {\"name\":") in
      let b2 = describe_json_string buf b1 s.name in
      let b3 = describe_flag buf b2 (codes ",\"is_running\":") s.is_running in
      let b4 = describe_flag buf b3 (codes ",\"is_started\":") s.is_started in
      let b5 = describe_flag buf b4 (codes ",\"is_joined\":") s.is_joined in
      let b6 = describe_flag buf b5 (codes ",\"is_worker_id_ready\":") s.is_worker_id_ready in
      let b7 =
        if s.is_worker_id_ready
        then buf.append b6 (codes ",\"worker_id\":" ++ buf.decimal s.worker_id)
        else buf.append b6 (codes ",\"worker_id\":null") in
      buf.append b7 (codes ",\"event_fd\":" ++ (buf.decimal s.event_fd ++ codes "}"))

  pub describe_workers : B → Option (List ℕ) → Bool → List (Scheduler Q) → B
  unfolding skips describe_worker
  describe_workers bd filter emitted [] = bd
  describe_workers bd filter emitted (w ∷ ws) =
      let skipped = describe_workers bd filter emitted ws in
      let bd' = if emitted then buf.append bd (codes ",") else bd in
      let described = describe_workers (describe_worker bd' w) filter true ws in
      if skips filter w then skipped else described

  pub describe_pool : B → Option (List ℕ) → Option (Pool Q) → B
  unfolding describe_workers
  describe_pool bd filter none = buf.append bd (codes "{\"worker_pool_sz\":0,\"workers\":[]}\n")
  describe_pool bd filter (some p) =
      let head =
        codes "{\"worker_pool_sz\":"
        ++ (buf.decimal p.worker_pool_sz
            ++ (codes ",\"round_robin_next\":"
                ++ (buf.decimal p.next
                    ++ (codes ",\"pool_is_running\":"
                        ++ (bool_text p.is_running ++ codes ",\"workers\":["))))) in
      buf.append (describe_workers (buf.append bd head) filter false p.workers) (codes "\n]}\n")

  -- With no buffer given, one is allocated. `none` is NULL.
  unfoldable pub describe_scheduler :
      (calloc_ok : Bool) → Option (Pool Q) → Option (List ℕ) → Option B → Option B
  unfolding describe_pool
  describe_scheduler calloc_ok p filter (some bd) = some (describe_pool bd filter p)
  describe_scheduler calloc_ok p filter none =
      if not calloc_ok then none else some (describe_pool buf.init filter p)
