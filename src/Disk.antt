-- ===== src/Disk.antt =====
-- The files under a store's root, by their path as a list of names. Every node stands in the table
-- by its own path, a directory too; a link is a symbolic link, whose target the code never follows.
pub mod Atomic
use edge_proc.Prelude.{
  ◌≡◌, refl, Bool, true, false, Option, none, some, List, [], ◌∷◌, ◌++◌, Text, Eq, ◌==◌, text_eq,
  Text-discrete, list_discrete, if◌then◌else◌, arith, ◌≢◌,
}

abbrev pub FilePath : Type 0
FilePath = List Text

unfoldable pub FilePath-discrete : Discrete (List Text)
unfolding list_discrete
FilePath-discrete = list_discrete Text-discrete

instance abbrev pub path_eq : Eq (List Text)
path_eq = record { dec = FilePath-discrete }

pub data Node : Type 0 where
  file : Text → Node
  directory link : Node

-- What goes wrong with an atomic write of a path: the data is not written, the file cannot take its
-- name, or the flush of the directory fails once it has.
pub data Fault : Type 0 where
  sound write_fault replace_fault sync_fault : Fault

pub record Disk : Type 0 where
  pub nodes : List (FilePath × Node)
  pub faults : FilePath → Fault

lookup : FilePath → List (FilePath × Node) → Option Node
lookup p [] = none
lookup p ((q, n) ∷ rest) = if q == p then some n else lookup p rest

without : FilePath → List (FilePath × Node) → List (FilePath × Node)
without p [] = []
without p ((q, n) ∷ rest) =
    let others = without p rest in if q == p then others else (q, n) ∷ others

unfoldable pub node : Disk → FilePath → Option Node
unfolding lookup
node d p = lookup p d.nodes

unfoldable pub write : Disk → FilePath → Node → Disk
unfolding without
write d p n = record d { nodes = (p, n) ∷ without p d.nodes }

unfoldable pub unlink : Disk → FilePath → Disk
unfolding without
unlink d p = record d { nodes = without p d.nodes }

lookup-without :
    (p q : FilePath) (ns : List (FilePath × Node))
    → lookup q (without p ns) ≡ (if p == q then none else lookup q ns)
unfolding lookup without
lookup-without p q [] = ground arith
lookup-without p q ((r, n) ∷ rest) = ground (arith, lookup-without p q rest)

pub node-write :
    (d : Disk) (p q : FilePath) (n : Node)
    → node (write d p n) q ≡ (if p == q then some n else node d q)
unfolding node write
node-write d p q n = ground (arith, lookup-without p q d.nodes)

pub node-unlink :
    (d : Disk) (p q : FilePath) → node (unlink d p) q ≡ (if p == q then none else node d q)
unfolding node unlink
node-unlink d p q = lookup-without p q d.nodes

-- `is_symlink`, `is_file`, `is_dir`, of a path that may be missing
abbrev pub is_link : Option Node → Bool
is_link (some link) = true
is_link _ = false

abbrev pub is_file : Option Node → Bool
is_file (some (file bytes)) = true
is_file _ = false

abbrev pub is_directory : Option Node → Bool
is_directory (some directory) = true
is_directory _ = false

-- The children of a directory, as `iterdir` gives them.
abbrev pub child_of : FilePath → FilePath → Option Text
child_of [] [] = none
child_of [] (name ∷ []) = some name
child_of [] (a ∷ b ∷ r) = none
child_of (a ∷ dir) [] = none
child_of (a ∷ dir) (b ∷ p) = if a == b then child_of dir p else none
