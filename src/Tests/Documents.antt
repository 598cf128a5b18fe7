-- ===== src/Tests/Documents.antt =====
-- The document of a pool of one worker, in a buffer that is a list of bytes.
use ufsrvrxlib.Base.{
  ℕ, ◌≡◌, refl, inl, inr, true, false, none, some, List, [], ◌∷◌, ◌++◌, map, arith,
}
use ufsrvrxlib.Base.Text.{codes}
use ufsrvrxlib.Scheduler.{Scheduler}
use ufsrvrxlib.Scheduler.Pool.{Pool}
use ufsrvrxlib.Scheduler.Describe.{text_buffer, describe_json_string, describe_scheduler}
use ufsrvrxlib.Scheduler.Describe.Json.{
  read_string, describe_json_string-reads, describe_json_string-control,
}
use ufsrvrxlib.Scheduler.Describe.Document.{
  head_of, object, IsSelection, commas, text-describe_scheduler,
}

abbrev quoted : List ℕ
quoted = b'"' ∷ b'\n' ∷ b'a' ∷ []

describe_json_string-reads_example :
    (lit : List ℕ) × (describe_json_string text_buffer [] (some quoted) ≡ b'"' ∷ lit)
    × ((rest : List ℕ) → read_string (lit ++ rest) ≡ some (quoted, rest))
describe_json_string-reads_example =
    describe_json_string-reads text_buffer [] quoted
      (inl (omega arith), (inr (inl refl), (inl (omega arith), tt)))

describe_json_string-control_example :
    (lit : List ℕ) × (describe_json_string text_buffer [] (some (b'a' ∷ 1 ∷ b'b' ∷ []))
      ≡ b'"' ∷ lit)
    × ((rest : List ℕ) → read_string (lit ++ rest) ≡ none)
describe_json_string-control_example =
    describe_json_string-control text_buffer [] (b'a' ∷ []) (b'b' ∷ []) 1 (inl (omega arith), tt)
      (omega arith, omega arith, omega arith)

abbrev named : Scheduler (List ℕ)
named = record {
  queue = [];
  event_fd = 5;
  event_count = 0;
  name = some (codes "a");
  is_running = true;
  is_started = true;
  is_joined = false;
  is_worker_id_ready = true;
  worker_id = 3;
}

abbrev unnamed : Scheduler (List ℕ)
unnamed = record named { name = none; is_worker_id_ready = false }

abbrev two_workers : Pool (List ℕ)
two_workers = record {
  workers = unnamed ∷ named ∷ [];
  worker_pool_sz = 2;
  next = 0;
  is_running = true;
}

text-describe_scheduler_example :
    (vs : List (Scheduler (List ℕ))) × (d : List ℕ) × IsSelection
      (some (codes "a"))
      (unnamed ∷ named ∷ [])
      vs
    × (describe_scheduler text_buffer true (some two_workers) (some (codes "a")) (some []) ≡ some d)
    × (d
        ≡ head_of text_buffer two_workers
          ++ (commas (map (object text_buffer) vs) ++ codes "\n]}\n"))
text-describe_scheduler_example =
    text-describe_scheduler text_buffer true two_workers (some (codes "a")) []
