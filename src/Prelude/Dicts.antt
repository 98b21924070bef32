-- ===== src/Prelude/Dicts.antt =====
-- A dict with text keys, as its items in the order of insertion.
use Prim.Native.Nat.{suc}
use mathlib.Core.Path.{◌≡◌, refl, ap}
use mathlib.Core.Bool.{Bool, true, false, ◌&&◌, ◌||◌, not}
use mathlib.Core.Option.{Option, none, some}
use mathlib.Core.List.{List, [], ◌∷◌, ◌++◌}
use native.Mathlib.Omega.{arith}
use edge_proc.Prelude.Tests.{Text, ◌==◌, text_eq, contains, if◌then◌else◌}
use edge_proc.Prelude.Lists.{length, keep_if}

module _ {A : Type 0} where
  -- `d.get(key)`
  abbrev pub get : List (Text × A) → Text → Option A
  get [] key = none
  get ((k, a) ∷ d) key = if k == key then some a else get d key

  -- `key in d`
  abbrev pub has : List (Text × A) → Text → Bool
  has [] key = false
  has ((k, a) ∷ d) key = k == key || has d key

  abbrev pub keys : List (Text × A) → List Text
  keys [] = []
  keys ((k, a) ∷ d) = k ∷ keys d

  -- `d[key] = value`
  abbrev pub put : List (Text × A) → Text → A → List (Text × A)
  put [] key value = (key, value) ∷ []
  put ((k, a) ∷ d) key value =
      let rest = put d key value in if k == key then (k, value) ∷ d else (k, a) ∷ rest

  -- `del d[key]`, of a key that is there
  abbrev pub del : List (Text × A) → Text → List (Text × A)
  del [] key = []
  del ((k, a) ∷ d) key = let rest = del d key in if k == key then rest else (k, a) ∷ rest

  pub get-put :
      (d : List (Text × A)) (key q : Text) (value : A)
      → get (put d key value) q ≡ (if key == q then some value else get d q)
  get-put [] key q value = refl
  get-put ((k, a) ∷ d) key q value = ground (arith, get-put d key q value)

  pub get-del :
      (d : List (Text × A)) (key q : Text)
      → get (del d key) q ≡ (if key == q then none else get d q)
  get-del [] key q = ground arith
  get-del ((k, a) ∷ d) key q = ground (arith, get-del d key q)

  pub has-get :
      (d : List (Text × A)) (q : Text) → has d q ≡ elim (get d q) [ none ↦ false | some a ↦ true ]
  has-get [] q = refl
  has-get ((k, a) ∷ d) q = ground (arith, has-get d q)

  pub has-keys : (d : List (Text × A)) (q : Text) → has d q ≡ contains (keys d) q
  has-keys [] q = refl
  has-keys ((k, a) ∷ d) q = ap (λ b. k == q || b) (has-keys d q)

  -- A new key goes to the end.
  pub keys-put :
      (d : List (Text × A)) (key : Text) (value : A)
      → contains (keys d) key ≡ false
      → keys (put d key value) ≡ keys d ++ key ∷ []
  keys-put [] key value h = refl
  keys-put ((k, a) ∷ d) key value h = ground (arith, keys-put d key value)

  pub keys-del :
      (d : List (Text × A)) (key : Text) → keys (del d key) ≡ keep_if (λ k. not (k == key)) (keys d)
  keys-del [] key = refl
  keys-del ((k, a) ∷ d) key = ground (arith, keys-del d key)

  pub length-keys : (d : List (Text × A)) → length (keys d) ≡ length d
  length-keys [] = refl
  length-keys ((k, a) ∷ d) = ap suc (length-keys d)

-- No key stands twice.
abbrev pub distinct_keys : List Text → Bool
distinct_keys [] = true
distinct_keys (k ∷ ks) = not (contains ks k) && distinct_keys ks

pub contains-snoc :
    (ks : List Text) (key q : Text) → contains (ks ++ key ∷ []) q ≡ (contains ks q || key == q)
contains-snoc [] key q = ground arith
contains-snoc (k ∷ ks) key q = ground (arith, contains-snoc ks key q)

pub contains-removed :
    (ks : List Text) (key q : Text)
    → contains (keep_if (λ k. not (k == key)) ks) q ≡ (if key == q then false else contains ks q)
contains-removed [] key q = ground arith
contains-removed (k ∷ ks) key q = ground (arith, contains-removed ks key q)

pub distinct-snoc :
    (ks : List Text) (key : Text)
    → contains ks key ≡ false
    → distinct_keys (ks ++ key ∷ []) ≡ distinct_keys ks
distinct-snoc [] key h = refl
distinct-snoc (k ∷ ks) key h = ground (arith, distinct-snoc ks key, contains-snoc ks key k)

pub distinct-removed :
    (ks : List Text) (key : Text)
    → distinct_keys ks ≡ true
    → distinct_keys (keep_if (λ k. not (k == key)) ks) ≡ true
distinct-removed [] key h = refl
distinct-removed (k ∷ ks) key h = ground (arith, distinct-removed ks key, contains-removed ks key k)
