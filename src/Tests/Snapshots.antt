-- ===== src/Tests/Snapshots.antt =====
-- A directory of snapshots: a first commit, and a second one that crashes.
use edge_proc.Prelude.{
  ◌≡◌, ◌⊎◌, refl, sym, ap, ◌||◌, not, Option, none, some, List, [], ◌∷◌, Text, get_or, nat_eq,
  text_eq, Text-discrete, ℕ_discrete, arith,
}
use edge_proc.Prelude.Codes.{codes}
use edge_proc.Exec.{ok}
use edge_proc.Manifest.{validate_sha256_hex}
use edge_proc.Localvec.Snapshots.{
  Files, Formats, IsLawful, SnapshotManifest, well_formed, padded, number_from, is_manifest,
  manifest_sequence, manifest_name, index_final, state_final, index_temp, state_temp, manifest_temp,
  read_regular_bytes, parse_manifest, read_manifest, open_verified_generation, payload_at, payload,
  complete_manifests, next_sequence, latest,
}
use edge_proc.Localvec.Snapshots.Commit.{
  effect, effects, stage_ops, manifest_ops, manifest_for, commit_ops, assert_current,
}
use edge_proc.Localvec.Snapshots.Current.{Current}
use edge_proc.Localvec.Snapshots.Stable.{IsFresh, names}
use edge_proc.Localvec.Snapshots.Fresh.{snapshot}
use edge_proc.Localvec.Snapshots.Safe.{stopped, writing, latest-crashed}
use edge_proc.Localvec.Snapshots.Committed.{committed-Current}
use edge_proc.Tests.World.{digest, digest-hex, zeros, parts_text, text_parts, text_parts-parts_text}

abbrev manifest_parts : SnapshotManifest → List Text
manifest_parts m = (m.sequence ∷ []) ∷ m.generation ∷ m.index_sha256 ∷ m.state_sha256 ∷ []

abbrev manifest_of : List Text → Option SnapshotManifest
manifest_of (n ∷ g ∷ i ∷ s ∷ []) =
    some (record { sequence = get_or n 0 0; generation = g; index_sha256 = i; state_sha256 = s })
manifest_of _ = none

abbrev pub toy : Formats
toy = record {
  dump = λ m. parts_text (manifest_parts m);
  load = λ t. manifest_of (text_parts 4 t);
  sha256 = digest;
}

pub toy-IsLawful : IsLawful toy
unfolding validate_sha256_hex
toy-IsLawful = record {
  load-dump = λ m. ap manifest_of (text_parts-parts_text (manifest_parts m));
  hex_digest = digest-hex;
}

abbrev pub first : Text
first = zeros 32

abbrev pub second : Text
second = b'1' ∷ zeros 31

abbrev pub uuid : Text
uuid = zeros 32

pub none-IsFresh : (gen : Text) → IsFresh toy [] gen
unfolding read_manifest read_regular_bytes
none-IsFresh gen = record { unused = λ y. ground arith }

pub none-next : next_sequence toy [] ≡ ok 1
unfolding next_sequence complete_manifests ℕ_discrete
none-next = refl

pub none-expected : assert_current toy none [] ≡ ok tt
unfolding assert_current
none-expected = refl

-- The directory after the requests of a first commit
pub left : Files
left = effects [] (commit_ops toy 1 first uuid (codes "rows") (codes "ids"))

pub left-Current :
    Current toy left (manifest_name 1) (snapshot toy (codes "rows") (codes "ids") 1 first)
unfolding left
left-Current =
    committed-Current toy toy-IsLawful [] first uuid (codes "rows") (codes "ids") 1
      (none-IsFresh first) (ground arith) (ground arith) none-next

left-next : next_sequence toy left ≡ ok 2
unfolding left next_sequence complete_manifests effects effect commit_ops stage_ops manifest_ops
    manifest_for index_temp state_temp index_final state_final manifest_temp manifest_name padded
    payload read_manifest read_regular_bytes parse_manifest well_formed open_verified_generation
    payload_at is_manifest manifest_sequence number_from Text-discrete ℕ_discrete
left-next = refl

left-IsFresh : IsFresh toy left second
unfolding left effects effect commit_ops stage_ops manifest_ops manifest_for index_temp state_temp
    index_final state_final manifest_temp manifest_name padded read_manifest read_regular_bytes
    parse_manifest well_formed is_manifest Text-discrete ℕ_discrete
left-IsFresh = record {
  unused = λ y. elim (text_eq.dec (manifest_name 1) y) [
    | yes e ↦ ap (λ z. not (is_manifest z) || not (names toy left second z)) (sym e)
    | no m ↦ elim (text_eq.dec (index_final first) y) [
      | yes e ↦ ap (λ z. not (is_manifest z) || not (names toy left second z)) (sym e)
      | no i ↦ elim (text_eq.dec (state_final first) y) [
        | yes e ↦ ap (λ z. not (is_manifest z) || not (names toy left second z)) (sym e)
        | no s ↦ ground (arith, m, i, s)
      ]
    ]
  ];
}

-- Writing the second manifest fails half-way, and one temporary file is removed.
latest-crashed_example :
    let after =
      stopped toy 2 second uuid
        (codes "more")
        (codes "ids")
        left
        (writing 4 (some (codes "half")) 1) in
    (latest toy (λ t. after) ≡ ok (snapshot toy (codes "rows") (codes "ids") 1 first))
    ⊎ (latest toy (λ t. after) ≡ ok (snapshot toy (codes "more") (codes "ids") 2 second))
latest-crashed_example =
    latest-crashed toy toy-IsLawful left second uuid (codes "more") (codes "ids") 2 left-IsFresh
      (ground arith) (ground arith) left-next (manifest_name 1)
      (snapshot toy (codes "rows") (codes "ids") 1 first) (writing 4 (some (codes "half")) 1)
      left-Current
