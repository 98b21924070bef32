-- ===== src/Localvec/Saved/Again.antt =====
-- A load after a save gives the index that was saved.
use edge_proc.Prelude.{◌≡◌, Bool, true, not, all, ltb, ◌&&◌, ◌||◌, ◌==◌, text_eq, some, Text}
use edge_proc.Prelude.Codes.{codes}
use edge_proc.Prelude.Dicts.{keys, distinct_keys}
use edge_proc.Manifest.{Scalar, str, float}
use edge_proc.Localvec.Flat.{Flat}
use edge_proc.Localvec.Index.{Metadata}
use edge_proc.Localvec.Index.Persist.{PersistedState}
use edge_proc.Localvec.Snapshots.{IsLawful}
use edge_proc.Localvec.Saved.{Codecs}

-- Text that UTF-8 encodes: no surrogate
abbrev is_encodable : Text → Bool
is_encodable t = all (λ c. ltb c 55296 || ltb 57343 c) t

-- JSON has no number for a NaN or an infinity, which pydantic writes as null.
abbrev is_storable_scalar : Scalar → Bool
is_storable_scalar (str t) = is_encodable t
is_storable_scalar (float t) =
    not (t == codes "NaN" || t == codes "Infinity" || t == codes "-Infinity")
is_storable_scalar _ = true

abbrev is_storable_metadata : Metadata → Bool
is_storable_metadata m =
    distinct_keys (keys m) && all (λ kv. is_encodable kv.0 && is_storable_scalar kv.1) m

-- A sidecar that JSON can hold
unfoldable pub is_storable : PersistedState → Bool
is_storable p =
    is_encodable p.config.distance_metric
    && all is_encodable p.faiss_ids
    && all is_encodable p.tombstoned
    && distinct_keys (keys p.meta)
    && all (λ kv. is_encodable kv.0 && is_storable_metadata kv.1) p.meta

-- What is written is read again, a sidecar if JSON can hold it.
pub record IsCodec (f : Flat) (x : Codecs f) : Type 0 where
  pub lawful : IsLawful x.formats
  pub read-write : (i : f.Index) → x.read_index (x.write_index i) ≡ some i
  pub load-dump :
      (p : PersistedState) → is_storable p ≡ true → x.load_state (x.dump_state p) ≡ some p
