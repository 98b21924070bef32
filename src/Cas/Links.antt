-- ===== src/Cas/Links.antt =====
-- No method of the store makes a symbolic link, so a path without links stays one.
use edge_proc.Prelude.{
  ◌≡◌, refl, ap, Bool, true, false, some, [], ◌∷◌, ◌++◌, Text, text_eq, arith, Bool-cases, inl, inr,
  subst, ◌≢◌, ℕ,
}
use edge_proc.Exec.{Result, ok, Keeps-bind, bind-ok}
use edge_proc.Disk.{FilePath, file, directory, Disk, node, node-write, is_link, path_eq}
use edge_proc.Cas.{linked_on, durable_mkdir, made, is_last, store_chunk}
use edge_proc.Externals.{Externals}
use edge_proc.Disk.Atomic.{atomic_write, node-atomic_write, parent_of}

-- Every link of `d'` is a link of `d`, and every file of `d` is still there.
pub record Grows (d d' : Disk) : Type 0 where
  pub links : (q : FilePath) → is_link (node d' q) ≡ true → is_link (node d q) ≡ true
  pub files :
      (q : FilePath) (bytes : Text) → node d q ≡ some (file bytes) → node d' q ≡ some (file bytes)

pub Grows-refl : (d : Disk) → Grows d d
Grows-refl d = record { links = λ q h. h; files = λ q b h. h }

linked_on-links :
    (d d' : Disk) (dir path : FilePath)
    → ((q : FilePath) → is_link (node d' q) ≡ true → is_link (node d q) ≡ true)
    → linked_on d dir path ≡ false
    → linked_on d' dir path ≡ false
unfolding linked_on
linked_on-links d d' dir [] g h = refl
linked_on-links d d' dir (n ∷ ns) g h = elim (Bool-cases (is_link (node d' (dir ++ n ∷ [])))) [
  | inl bad ↦ absurd (ground (arith, g (dir ++ n ∷ []) bad))
  | inr good ↦ rw good (linked_on-links d d' (dir ++ n ∷ []) ns g (ground arith))
]

pub unlinked-links :
    (d d' : Disk) (path : FilePath)
    → ((q : FilePath) → is_link (node d' q) ≡ true → is_link (node d q) ≡ true)
    → linked_on d [] path ≡ false
    → linked_on d' [] path ≡ false
unlinked-links d d' path g h = linked_on-links d d' [] path g h

made-Grows : (p : FilePath) (last : Bool) (d : Disk) → Grows d (made p (node d p) last d).1
unfolding made
made-Grows p last d = record {
  links = λ q h. ground (arith, node-write d p q directory);
  files = λ q b h. ground (arith, node-write d p q directory);
}

Grows-trans : (a b c : Disk) → Grows a b → Grows b c → Grows a c
Grows-trans a b c g h = record {
  links = λ q e. g.links q (h.links q e);
  files = λ q x e. h.files q x (g.files q x e);
}

-- Making directories makes no link and loses no file, whether it succeeds or not.
pub durable_mkdir-Grows : (dir path : FilePath) (d : Disk) → Grows d (durable_mkdir dir path d).1
unfolding durable_mkdir
durable_mkdir-Grows dir [] d = Grows-refl d
durable_mkdir-Grows dir (n ∷ ns) d =
    Keeps-bind (Grows d) (λ d. made (dir ++ n ∷ []) (node d (dir ++ n ∷ [])) (is_last ns) d)
      (λ _. durable_mkdir (dir ++ n ∷ []) ns)
      (λ e g. Grows-trans d e _ g (made-Grows (dir ++ n ∷ []) (is_last ns) e))
      (λ a e g. Grows-trans d e _ g (durable_mkdir-Grows (dir ++ n ∷ []) ns e)) d (Grows-refl d)

module _ (x : Externals) (max_size : ℕ) (pid : Text) where
  -- A write into the store that goes through: the bytes stand at the path, and no link is new.
  pub store_chunk-ok :
      (path : FilePath) (bytes : Text) (d d' : Disk)
      → path ≢ []
      → store_chunk x max_size pid path bytes d ≡ (ok tt, d')
      → (node d' path ≡ some (file bytes))
        × ((q : FilePath) → is_link (node d' q) ≡ true → is_link (node d q) ≡ true)
        × ((q : FilePath) (b : Text)
            → node d q ≡ some (file b)
            → q ≢ path
            → node d' q ≡ some (file b))
  unfolding store_chunk
  store_chunk-ok path bytes d d' h e =
      let (u, m, made', wrote) =
        bind-ok (durable_mkdir [] (parent_of path)) (λ _. atomic_write pid path bytes) d d' tt e in
      let grown : Grows d m =
        subst (λ s. Grows d s) (ap (λ (r : Result Unit × Disk). r.1) made')
          (durable_mkdir-Grows [] (parent_of path) d) in
      (
        ground (arith, node-atomic_write pid path bytes m d' path h wrote),
        λ q l. grown.links q (ground (arith, node-atomic_write pid path bytes m d' q h wrote)),
        λ q b l ne.
            ground (arith, node-atomic_write pid path bytes m d' q h wrote, grown.files q b l),
      )
