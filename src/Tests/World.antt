-- ===== src/Tests/World.antt =====
-- A small world for the examples: a digest, codecs and versions that obey the laws.
use edge_proc.Prelude.{
  ℕ, zero, suc, ◌+◌, ◌%◌, ◌≡◌, ◌∙◌, ap, refl, Bool, true, Option, none, some, List, [], ◌∷◌, ◌++◌,
  Text, length, take, drop, get_or, all, ltb, ◌==◌, nat_eq, text_eq, if◌then◌else◌, arith,
}
use edge_proc.Prelude.Codes.{codes}
use edge_proc.Prelude.Int.{pos}
use edge_proc.Exec.{Result, ok, err}
use edge_proc.Errors.{os}
use edge_proc.Disk.{directory, Disk, sound}
use edge_proc.Manifest.{IndexManifest, VersionPointer, validate_sha256_hex}
use edge_proc.Signing.{Crypto}
use edge_proc.Promotion.{Versions, IsOrder}
use edge_proc.Externals.{Externals, IsLawful}
use edge_proc.Sync.{SyncCaps, Verifier}

abbrev pub zeros : ℕ → Text
zeros zero = []
zeros (suc n) = b'0' ∷ zeros n

-- 64 hexadecimal digits, of which the first two depend on the length and on the first byte.
abbrev pub digest : Text → Text
digest t = (b'0' + length t % 10) ∷ (b'0' + get_or t 0 0 % 10) ∷ zeros 62

abbrev pub toy_crypto : Crypto
toy_crypto = record {
  sha256 = digest;
  b64decode = some;
  b64encode = λ t. t;
  is_public_key = λ t. length t == 32;
  verifies = λ key raw bytes. raw == key;
  public_of = λ t. t;
  sign_raw = λ key bytes. key;
}

-- A length in front of every part.
abbrev pub parts_text : List Text → Text
parts_text [] = []
parts_text (t ∷ ts) = length t ∷ (t ++ parts_text ts)

abbrev pub text_parts : ℕ → Text → List Text
text_parts zero t = []
text_parts (suc fuel) [] = []
text_parts (suc fuel) (n ∷ t) = take n t ∷ text_parts fuel (drop n t)

take-front : (t u : Text) → take (length t) (t ++ u) ≡ t
take-front [] u = refl
take-front (c ∷ t) u = rw (take-front t u)

drop-front : (t u : Text) → drop (length t) (t ++ u) ≡ u
drop-front [] u = refl
drop-front (c ∷ t) u = drop-front t u

pub text_parts-parts_text : (ts : List Text) → text_parts (length ts) (parts_text ts) ≡ ts
text_parts-parts_text [] = refl
text_parts-parts_text (t ∷ ts) =
    rw (take-front t (parts_text ts), drop-front t (parts_text ts), text_parts-parts_text ts)

abbrev of_text : Option Text → Text
of_text none = []
of_text (some t) = 0 ∷ t

abbrev of_number : Option ℕ → Text
of_number none = []
of_number (some n) = n ∷ []

abbrev to_text : Text → Option Text
to_text [] = none
to_text (c ∷ t) = some t

abbrev to_number : Text → Option ℕ
to_number [] = none
to_number (c ∷ t) = some c

to_text-of_text : (o : Option Text) → to_text (of_text o) ≡ o
to_text-of_text none = refl
to_text-of_text (some t) = refl

to_number-of_number : (o : Option ℕ) → to_number (of_number o) ≡ o
to_number-of_number none = refl
to_number-of_number (some t) = refl

abbrev pointer_parts : VersionPointer → List Text
pointer_parts p =
    p.manifest_hash
    ∷ p.version
    ∷ of_text p.bundle_id
    ∷ of_text p.channel
    ∷ of_number p.sequence
    ∷ of_text p.key_id
    ∷ of_number p.expires_at
    ∷ p.signature
    ∷ []

abbrev pub pointer_text : VersionPointer → Text
pointer_text p = parts_text (pointer_parts p)

abbrev pointer_of : List Text → Option VersionPointer
pointer_of (h ∷ v ∷ b ∷ c ∷ n ∷ k ∷ e ∷ s ∷ []) = some (record {
  manifest_hash = h;
  version = v;
  bundle_id = to_text b;
  channel = to_text c;
  sequence = to_number n;
  key_id = to_text k;
  expires_at = to_number e;
  signature = s;
})
pointer_of _ = none

pointer_of-parts : (p : VersionPointer) → pointer_of (pointer_parts p) ≡ some p
pointer_of-parts p = rw (
  to_text-of_text p.bundle_id,
  to_text-of_text p.channel,
  to_text-of_text p.key_id,
  to_number-of_number p.sequence,
  to_number-of_number p.expires_at,
)

abbrev pub hello : Text
hello = codes "hello"

-- One file of one chunk.
abbrev pub small_manifest : IndexManifest
small_manifest = record {
  schema_version = pos 2;
  bundle_id = codes "b";
  version = codes "1";
  files =
      record {
        path = codes "a";
        file_type = none;
        size = pos 5;
        file_sha256 = digest hello;
        chunks = record { hash = digest hello; size = pos 5 } ∷ [];
      }
      ∷ [];
  metadata = [];
}

abbrev pub manifest_raw : Text
manifest_raw = codes "manifest"

abbrev pub toy : Externals
toy = record {
  crypto = toy_crypto;
  compress = λ t. t;
  stream_read = λ n t. some (take n t);
  dump_pointer = pointer_text;
  load_pointer = λ t. pointer_of (text_parts 8 t);
  load_manifest = λ t. some small_manifest;
}

all-zeros : (n : ℕ) (p : ℕ → Bool) → p b'0' ≡ true → all p (zeros n) ≡ true
all-zeros zero p h = refl
all-zeros (suc n) p h = rw (h, all-zeros n p h)

pub digest-hex : (t : Text) → validate_sha256_hex (digest t) ≡ true
unfolding validate_sha256_hex
digest-hex t = ground (arith)

pub toy-IsLawful : IsLawful toy
toy-IsLawful = record {
  hex_digest = digest-hex;
  read-compress = λ n t. refl;
  load-dump = λ p. ap pointer_of (text_parts-parts_text (pointer_parts p)) ∙ pointer_of-parts p;
}

-- A version is its length.
abbrev pub lengths : Versions
lengths = record { Version = ℕ; parse = λ t. some (length t); lt = ltb; eq = λ a b. a == b }

pub lengths-IsOrder : IsOrder lengths
lengths-IsOrder = record {
  lt_irrefl = λ a. ground arith;
  lt_trans = λ a b c h i. ground arith;
  eq_lt = λ a b h. ground arith;
  trichotomy = λ a b h i. ground arith;
}

abbrev pub pointer_at : ℕ → VersionPointer
pointer_at n = record {
  manifest_hash = digest manifest_raw;
  version = codes "1";
  bundle_id = some (codes "b");
  channel = none;
  sequence = some n;
  key_id = none;
  expires_at = none;
  signature = codes "key";
}

abbrev pub empty_disk : Disk
empty_disk = record {
  nodes = (codes "chunks" ∷ [], directory) ∷ (codes "manifests" ∷ [], directory) ∷ [];
  faults = λ p. sound;
}

abbrev pub base_url : Text
base_url = codes "o"

abbrev pub origin : Text → Result Text
origin url =
    if url == codes "o/latest"
    then ok (pointer_text (pointer_at 3))
    else if url == base_url ++ (codes "/manifest/" ++ digest manifest_raw)
    then ok manifest_raw
    else ok hello

abbrev pub toy_verifier : Verifier
toy_verifier = record {
  verify = λ bytes sig. if sig == codes "key" then ok tt else err os;
  verify_pointer = none;
}

abbrev pub small_caps : SyncCaps
small_caps = record { total_bytes = 100; max_files = 10; max_materialize_bytes = 100 }
