-- ===== src/Scheduler/Describe/Json.antt =====
-- The names in the document, and a reader of JSON string literals (RFC 8259), which takes the escapes of a quote, a backslash, a newline and a tab, and refuses control characters.
use ufsrvrxlib.Base.{
  ℕ, ◌<◌, ◌≡◌, refl, sym, ap, ◌∙◌, ◌≢◌, ◌⊎◌, Option, none, some, List, [], ◌∷◌, ◌++◌, ◌==◌,
  if◌then◌else◌, arith, append_assoc, append-nil, ltb, All,
}
use ufsrvrxlib.Scheduler.Describe.{Buffer, escape, describe_chars, describe_json_string}

-- What an escape stands for.
pub unescape : ℕ → Option ℕ
unescape c =
    if c == b'"'
    then some b'"'
    else if c == b'\\'
    then some b'\\'
    else if c == b'n'
    then some b'\n'
    else if c == b't'
    then some b'\t'
    else none

abbrev pub push : ℕ → Option (List ℕ × List ℕ) → Option (List ℕ × List ℕ)
push c none = none
push c (some (s, rest)) = some (c ∷ s, rest)

-- The text behind an opening quote, up to the closing one, and what follows that.
pub read_string : List ℕ → Option (List ℕ × List ℕ)
unfolding unescape
read_string [] = none
read_string (c ∷ []) = if c == b'"' then some ([], []) else none
read_string (c ∷ d ∷ l) =
    let behind : Option (List ℕ × List ℕ) = elim (unescape d) [
      | none ↦ none
      | some e ↦ push e (read_string l)
    ] in
    let plain = push c (read_string (d ∷ l)) in
    if c == b'"'
    then some ([], d ∷ l)
    else if c == b'\\'
    then behind
    else if ltb c 32
    then none
    else plain

-- No control character but newline and tab.
abbrev pub IsClean : ℕ → Type 0
IsClean c = (31 < c) ⊎ ((c ≡ b'\n') ⊎ (c ≡ b'\t'))

pub escaped : List ℕ → List ℕ
escaped [] = []
escaped (c ∷ cs) = escape c ++ escaped cs

read_escape :
    (c d : ℕ) (l : List ℕ)
    → IsClean c
    → read_string (escape c ++ d ∷ l) ≡ push c (read_string (d ∷ l))
unfolding read_string escape unescape
read_escape c d l h = ground arith

nonempty : (xs : List ℕ) (y : ℕ) (ys : List ℕ) → (d : ℕ) × (l : List ℕ) × (xs ++ y ∷ ys ≡ d ∷ l)
nonempty [] y ys = (y, ys, refl)
nonempty (x ∷ xs) y ys = (x, xs ++ y ∷ ys, refl)

-- One clean character in front of any literal.
read_clean :
    (c : ℕ) (xs : List ℕ) (y : ℕ) (ys : List ℕ)
    → IsClean c
    → read_string (escape c ++ (xs ++ y ∷ ys)) ≡ push c (read_string (xs ++ y ∷ ys))
read_clean c xs y ys h = let (d, l, e) = nonempty xs y ys in rw e (read_escape c d l h)

read_escaped :
    (cs rest : List ℕ) → All IsClean cs → read_string (escaped cs ++ b'"' ∷ rest) ≡ some (cs, rest)
unfolding escaped read_string
read_escaped [] [] h = refl
read_escaped [] (r ∷ rest) h = refl
read_escaped (c ∷ cs) rest h =
    ap read_string (append_assoc (escape c) (escaped cs) (b'"' ∷ rest))
    ∙ read_clean c (escaped cs) b'"' rest h.0
    ∙ ap (push c) (read_escaped cs rest h.1)

-- A control character that is not escaped.
abbrev pub IsControl : ℕ → Type 0
IsControl c = (c < 32) × (c ≢ b'\n') × (c ≢ b'\t')

read_control :
    (c : ℕ) (xs : List ℕ) (y : ℕ) (ys : List ℕ)
    → IsControl c
    → read_string (escape c ++ (xs ++ y ∷ ys)) ≡ none
unfolding read_string escape
read_control c xs y ys h = let (d, l, e) = nonempty xs y ys in rw e (ground arith)

read_escaped-control :
    (cs ds rest : List ℕ) (c : ℕ)
    → All IsClean cs
    → IsControl c
    → read_string (escaped (cs ++ c ∷ ds) ++ b'"' ∷ rest) ≡ none
unfolding escaped
read_escaped-control [] ds rest c h k =
    ap read_string (append_assoc (escape c) (escaped ds) (b'"' ∷ rest))
    ∙ read_control c (escaped ds) b'"' rest k
read_escaped-control (b ∷ cs) ds rest c h k =
    ap read_string (append_assoc (escape b) (escaped (cs ++ c ∷ ds)) (b'"' ∷ rest))
    ∙ read_clean b (escaped (cs ++ c ∷ ds)) b'"' rest h.0
    ∙ ap (push b) (read_escaped-control cs ds rest c h.1 k)

module _ {B : Type 0} (buf : Buffer B) where
  -- The literal behind its opening quote, with the closing one.
  abbrev literal : List ℕ → List ℕ
  literal s = escaped s ++ b'"' ∷ []

  pub text-describe_chars :
      (bd : B) (cs : List ℕ) → buf.text (describe_chars buf bd cs) ≡ buf.text bd ++ escaped cs
  unfolding describe_chars escaped
  text-describe_chars bd [] = sym (append-nil (buf.text bd))
  text-describe_chars bd (c ∷ cs) =
      text-describe_chars (buf.append bd (escape c)) cs
      ∙ ap (λ t. t ++ escaped cs) (buf.text-append bd (escape c))
      ∙ append_assoc (buf.text bd) (escape c) (escaped cs)

  text-describe_json_string :
      (bd : B) (s : List ℕ)
      → buf.text (describe_json_string buf bd (some s)) ≡ buf.text bd ++ b'"' ∷ literal s
  unfolding describe_json_string
  text-describe_json_string bd s = simp (buf.text-append, text-describe_chars, append_assoc)

  literal_append : (s rest : List ℕ) → literal s ++ rest ≡ escaped s ++ b'"' ∷ rest
  literal_append s rest = append_assoc (escaped s) (b'"' ∷ []) rest

  -- `sDescribeJsonString` appends a quote and a text that a reader of JSON string literals reads back
  -- as the very name and nothing more, for every name that has no control character but newline and
  -- tab, whatever follows it.
  pub describe_json_string-reads :
      (bd : B) (s : List ℕ)
      → All IsClean s
      → (lit : List ℕ) × (buf.text (describe_json_string buf bd (some s))
          ≡ buf.text bd ++ b'"' ∷ lit)
        × ((rest : List ℕ) → read_string (lit ++ rest) ≡ some (s, rest))
  describe_json_string-reads bd s h = (
    literal s,
    text-describe_json_string bd s,
    λ rest. ap read_string (literal_append s rest) ∙ read_escaped s rest h,
  )

  -- A name with a control character other than newline and tab is not escaped enough: what
  -- `sDescribeJsonString` appends for it is a quote and a text that no reader of JSON string literals
  -- accepts, whatever follows it.
  pub describe_json_string-control :
      (bd : B) (s t : List ℕ) (c : ℕ)
      → All IsClean s
      → IsControl c
      → (lit : List ℕ) × (buf.text (describe_json_string buf bd (some (s ++ c ∷ t)))
          ≡ buf.text bd ++ b'"' ∷ lit)
        × ((rest : List ℕ) → read_string (lit ++ rest) ≡ none)
  describe_json_string-control bd s t c h k = (
    literal (s ++ c ∷ t),
    text-describe_json_string bd (s ++ c ∷ t),
    λ rest. ap read_string (literal_append (s ++ c ∷ t) rest) ∙ read_escaped-control s t rest c h k,
  )
