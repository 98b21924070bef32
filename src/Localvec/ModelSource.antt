-- ===== src/Localvec/ModelSource.antt =====
-- edgeproc/localvec/model_source.py: where the embedding model comes from, and when it may be
-- downloaded. A directory is the files below it, each with the parts of its relative path.
use edge_proc.Prelude.{
  ◌≡◌, ◌⊎◌, refl, sym, ap, inl, inr, Bool, true, false, Option, none, some, List, [], ◌∷◌, ◌++◌,
  Text, ◌==◌, text_eq, if◌then◌else◌, arith, Bool-cases, Option-cases,
}
use edge_proc.Errors.{model_not_local, model_path_invalid, model_digest_mismatch}
use edge_proc.Exec.{Result, ok, err}
use edge_proc.Keyring.Sorted.{text_le, sort_by}
use edge_proc.Core.Settings.{Settings}

abbrev pub Tree : Type 0
Tree = List (List Text × Text)

-- The order of paths is that of their parts.
unfoldable pub parts_le : List Text → List Text → Bool
parts_le [] q = true
parts_le (a ∷ p) [] = false
parts_le (a ∷ p) (b ∷ q) = if a == b then parts_le p q else text_le a b

-- `str(path)`, of parts
unfoldable pub joined_path : List Text → Text
joined_path [] = []
joined_path (a ∷ []) = a
joined_path (a ∷ b ∷ p) = a ++ b'/' ∷ joined_path (b ∷ p)

-- The bytes that are digested: each path, then its file's bytes, with nothing between them
unfoldable pub absorbed : Tree → Text
absorbed [] = []
absorbed ((path, bytes) ∷ files) = joined_path path ++ bytes ++ absorbed files

-- `ModelSource`
pub record ModelSource : Type 0 where
  pub reference : Text
  pub local_files_only : Bool

-- hashlib, and the directory that a path names, if it names one
module _ (sha256 : Text → Text) (directory : Text → Option Tree) where
  -- `digest_model_dir`
  unfoldable pub digest_model_dir : Tree → Text
  digest_model_dir files = sha256 (absorbed (sort_by (λ a b. parts_le a.0 b.0) files))

  -- `_require_digest`; true where no pin is set.
  unfoldable pub require_digest : Tree → Option Text → Bool
  require_digest files none = true
  require_digest files (some expected) = digest_model_dir files == expected

  -- `_verified_local_source`
  unfoldable pub verified_local_source : Text → Option Text → Result ModelSource
  verified_local_source path expected = elim (directory path) [
    | none ↦ err model_path_invalid
    | some files ↦
        if require_digest files expected
        then ok (record { reference = path; local_files_only = true })
        else err model_digest_mismatch
  ]

  -- `a or b`, of an optional text; the empty one is false.
  abbrev pub name_or : Option Text → Text → Text
  name_or none b = b
  name_or (some []) b = b
  name_or (some (c ∷ a)) b = c ∷ a

  abbrev pub path_or : Option Text → Option Text → Option Text
  path_or none b = b
  path_or (some a) b = some a

  -- The rest of `resolve_model_source`, with no local path; `_refuse_orphan_digest` comes first.
  abbrev pub remote_source :
      {F : Type 0} → Settings F → Option Text → Option Text → Result ModelSource
  remote_source settings model_name (some digest) = err model_path_invalid
  remote_source settings model_name none =
      if settings.allow_model_download
      then ok
          (record { reference = name_or model_name settings.model_name; local_files_only = false })
      else err model_not_local

  -- `resolve_model_source`
  unfoldable pub resolve_model_source :
      {F : Type 0} → Settings F → Option Text → Option Text → Result ModelSource
  resolve_model_source settings model_name model_path =
      elim (path_or model_path settings.model_path) [
        | some path ↦ verified_local_source path settings.model_digest
        | none ↦ remote_source settings model_name settings.model_digest
      ]

  pinned-eq :
      (files : Tree) (d : Text) → require_digest files (some d) ≡ true → d ≡ digest_model_dir files
  unfolding require_digest
  pinned-eq files d h = elim (text_eq.dec (digest_model_dir files) d) [
    | yes e ↦ sym e
    | no n ↦ absurd (ground (arith, n, h))
  ]

  -- A model is loaded from the local directory that the argument or the setting names, only from
  -- local files and with the pinned digest if one is set; or no directory is named, no digest is
  -- pinned and the setting permits a download.
  pub resolve_model_source-ok :
      {F : Type 0} (settings : Settings F) (model_name model_path : Option Text)
      (source : ModelSource)
      → resolve_model_source settings model_name model_path ≡ ok source
      → ((path : Text) × (files : Tree) × (path_or model_path settings.model_path ≡ some path)
          × (directory path ≡ some files)
          × (source ≡ record { reference = path; local_files_only = true })
          × ((settings.model_digest ≡ none)
              ⊎ (settings.model_digest ≡ some (digest_model_dir files))))
        ⊎ ((path_or model_path settings.model_path ≡ none)
            × (settings.model_digest ≡ none)
            × (settings.allow_model_download ≡ true)
            × (source.local_files_only ≡ false))
  unfolding resolve_model_source verified_local_source
  resolve_model_source-ok settings model_name model_path source h =
      elim (Option-cases (path_or model_path settings.model_path)) [
        | inl none' ↦ elim (Option-cases settings.model_digest) [
          | inr (d, pinned) ↦ absurd (ground (arith, none', pinned, h))
          | inl free ↦ elim (Bool-cases settings.allow_model_download) [
            | inr no' ↦ absurd (ground (arith, none', free, no', h))
            | inl yes' ↦ inr (none', free, yes', ground (arith, none', free, yes', h))
          ]
        ]
        | inr (path, some') ↦ elim (Option-cases (directory path)) [
          | inl missing ↦ absurd (ground (arith, some', missing, h))
          | inr (files, found) ↦ elim (Bool-cases (require_digest files settings.model_digest)) [
            | inr no' ↦ absurd (ground (arith, some', found, no', h))
            | inl yes' ↦ inl (
              path,
              files,
              some',
              found,
              ground (arith, some', found, yes', h),
              pin files settings.model_digest yes',
            )
          ]
        ]
      ]
    where
      pin :
          (files : Tree) (o : Option Text)
          → require_digest files o ≡ true
          → (o ≡ none) ⊎ (o ≡ some (digest_model_dir files))
      pin files none e = inl refl
      pin files (some d) e = inr (ap (λ x. some x) (pinned-eq files d e))
