-- ===== src/Containment.antt =====
-- edgeproc/bundles/containment.py: which paths a manifest may name. `PurePosixPath` splits at
-- slashes and drops empty names and single dots.
use edge_proc.Prelude.{
  Bool, false, ◌&&◌, not, List, [], ◌∷◌, Text, contains, ◌==◌, nat_eq, text_eq, if◌then◌else◌,
}
use edge_proc.Prelude.Codes.{codes}

abbrev pub dot : Text
dot = codes "."

abbrev pub dot_dot : Text
dot_dot = codes ".."

-- `path.split("/")`: the first name, and the others
pub split_slash : Text → Text × List Text
split_slash [] = ([], [])
split_slash (c ∷ t) =
    let (name, rest) = split_slash t in if c == b'/' then ([], name ∷ rest) else (c ∷ name, rest)

-- the names that `PurePosixPath` keeps
pub keep_names : List Text → List Text
keep_names [] = []
keep_names (name ∷ rest) =
    let names = keep_names rest in
    if name == [] then names else if name == dot then names else name ∷ names

-- `PurePosixPath(path).parts`, less the root of an absolute path
pub parts : Text → List Text
unfolding split_slash keep_names
parts path = let (name, rest) = split_slash path in keep_names (name ∷ rest)

abbrev pub is_absolute : Text → Bool
is_absolute [] = false
is_absolute (c ∷ t) = c == b'/'

-- `ensure_safe_relpath`; false is the `UnsafePathError`.
unfoldable pub ensure_safe_relpath : Text → Bool
unfolding parts
ensure_safe_relpath [] = false
ensure_safe_relpath (c ∷ t) =
    not (contains (c ∷ t) 92) && not (is_absolute (c ∷ t)) && not (contains (parts (c ∷ t)) dot_dot)
