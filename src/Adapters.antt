-- ===== src/Adapters.antt =====
-- `HttpAdapter` of edgeproc/bundles/adapters.py: reading a response under a cap. The chunks that the
-- response yields are the list; the connection is httpx's.
use edge_proc.Prelude.{
  ℕ, ◌≤◌, ◌≡◌, List, [], ◌∷◌, ◌++◌, concat, Text, length, length-append, ltb, if◌then◌else◌, arith,
  refl,
}
use edge_proc.Errors.{too_large}
use edge_proc.Exec.{Result, ok, err}
use mathlib.Core.List.{append-nil, append_assoc}

-- `_read_capped`, from the buffer that is there
unfoldable pub read_capped : ℕ → Text → List Text → Result Text
read_capped max_bytes buffer [] = ok buffer
read_capped max_bytes buffer (chunk ∷ chunks) =
    let grown = buffer ++ chunk in
    let rest = read_capped max_bytes grown chunks in
    if ltb max_bytes (length grown) then err too_large else rest

-- A body that fits is read whole, in whatever chunks it comes.
pub read_capped-ok :
    (max_bytes : ℕ) (buffer : Text) (chunks : List Text)
    → length (buffer ++ concat chunks) ≤ max_bytes
    → read_capped max_bytes buffer chunks ≡ ok (buffer ++ concat chunks)
unfolding read_capped
read_capped-ok max_bytes buffer [] h = rw append-nil refl
read_capped-ok max_bytes buffer (c ∷ cs) h =
    let same : buffer ++ c ++ concat cs ≡ buffer ++ (c ++ concat cs) =
      append_assoc buffer c (concat cs) in
    let fits : length (buffer ++ c ++ concat cs) ≤ max_bytes = rw same h in
    let step : length (buffer ++ c) ≤ max_bytes =
      omega (arith, fits, length-append (buffer ++ c) (concat cs)) in
    ground (arith, step, read_capped-ok max_bytes (buffer ++ c) cs fits, same)
