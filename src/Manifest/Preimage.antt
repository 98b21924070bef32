-- ===== src/Manifest/Preimage.antt =====
-- `pointer_signing_bytes` of edgeproc/bundles/manifest.py: the bytes that a pointer's signature is
-- over. A field that is unset is left out, and so is the signature.
use edge_proc.Prelude.{Option, none, some, List, [], ◌∷◌, ◌++◌, Text}
use edge_proc.Prelude.Codes.{codes}
use edge_proc.Prelude.Int.{pos}
use edge_proc.Manifest.{VersionPointer, int}
use edge_proc.Manifest.Json.{Json, leaf, text, object, dumps}

-- The optional field, where it is set.
abbrev pub set_field : {A : Type 0} → Text → (A → Json) → Option A → List (Text × Json)
set_field name write none = []
set_field name write (some a) = (name, write a) ∷ []

-- `model_dump` less what `pointer_signing_bytes` excludes
unfoldable pub signed_fields : VersionPointer → List (Text × Json)
signed_fields p =
    (codes "manifest_hash", text p.manifest_hash)
    ∷ (codes "version", text p.version)
    ∷ (set_field (codes "bundle_id") text p.bundle_id
        ++ set_field (codes "channel") text p.channel
        ++ set_field (codes "sequence") (λ n. leaf (int (pos n))) p.sequence
        ++ set_field (codes "key_id") text p.key_id
        ++ set_field (codes "expires_at") (λ n. leaf (int (pos n))) p.expires_at)

unfoldable pub pointer_signing_bytes : VersionPointer → Text
unfolding signed_fields object dumps
pointer_signing_bytes p = dumps (object (signed_fields p))
