-- ===== src/Tests/Models.antt =====
-- The source of a model, and two directories of one digest.
use edge_proc.Prelude.{
  ◌≡◌, ◌⊎◌, refl, true, false, Option, none, some, [], ◌∷◌, Text, Text-discrete, ℕ_discrete,
}
use edge_proc.Prelude.Codes.{codes}
use edge_proc.Exec.{ok}
use edge_proc.Keyring.Sorted.{sort_by, insert_by, text_le}
use edge_proc.Core.Settings.{Settings, default_settings}
use edge_proc.Localvec.ModelSource.{
  Tree, parts_le, joined_path, absorbed, ModelSource, digest_model_dir, require_digest,
  verified_local_source, resolve_model_source, resolve_model_source-ok,
}
use edge_proc.Tests.World.{digest}

abbrev files : Tree
files = (codes "weights" ∷ [], codes "x") ∷ []

abbrev directory : Text → Option Tree
directory path = some files

abbrev settings : Settings Unit
settings = record (default_settings tt) { model_path = some (codes "m") }

abbrev source : ModelSource
source = record { reference = codes "m"; local_files_only = true }

resolved : resolve_model_source digest directory settings none none ≡ ok source
unfolding resolve_model_source verified_local_source require_digest
resolved = refl

resolve_model_source-ok_example :
    ((path : Text) × (fs : Tree) × (settings.model_path ≡ some path)
      × (directory path ≡ some fs)
      × (source ≡ record { reference = path; local_files_only = true })
      × ((settings.model_digest ≡ none)
          ⊎ (settings.model_digest ≡ some (digest_model_dir digest directory fs))))
    ⊎ ((settings.model_path ≡ none)
        × (settings.model_digest ≡ none)
        × (settings.allow_model_download ≡ true)
        × (source.local_files_only ≡ false))
resolve_model_source-ok_example =
    resolve_model_source-ok digest directory settings none none source resolved

-- The bytes of the files `a` and `b` are swapped, and the digest stays.
swapped :
    (sha256 : Text → Text)
    → digest_model_dir sha256 directory ((codes "a" ∷ [], []) ∷ (codes "b" ∷ [], codes "b") ∷ [])
      ≡ digest_model_dir sha256 directory ((codes "a" ∷ [], codes "b") ∷ (codes "b" ∷ [], []) ∷ [])
unfolding digest_model_dir absorbed joined_path sort_by insert_by parts_le text_le Text-discrete
    ℕ_discrete
swapped sha256 = refl
