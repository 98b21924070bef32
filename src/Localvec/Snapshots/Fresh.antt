-- ===== src/Localvec/Snapshots/Fresh.antt =====
-- A commit makes its snapshot the current one.
use edge_proc.Prelude.{
  ℕ, ◌^◌, ◌<◌, ◌≤◌, ◌≡◌, ◌≢◌, ◌∙◌, refl, sym, ap, ap₂, inl, inr, true, false, none, some, List, [],
  ◌∷◌, ◌++◌, Text, length, ◌==◌, nat_eq, text_eq, if◌then◌else◌, arith, Bool-cases,
}
use edge_proc.Prelude.Dicts.{get, put, del, get-put, get-del}
use edge_proc.Errors.{value}
use edge_proc.Exec.{ok, err, Result-cases}
use edge_proc.Manifest.{is_hex_of}
use edge_proc.Disk.{file}
use edge_proc.Localvec.Snapshots.{
  Files, Formats, IsLawful, SnapshotPayload, well_formed, is_manifest, manifest_name, index_final,
  state_final, index_temp, state_temp, manifest_temp, read_regular_bytes, parse_manifest,
  read_manifest, opened, open_verified_generation, payload, is_complete, completes, next_sequence,
}
use edge_proc.Localvec.Snapshots.Commit.{
  Op, written, renamed, effect, effects, stage_ops, manifest_for, manifest_ops, commit_ops,
}
use edge_proc.Localvec.Snapshots.Names.{
  length-manifest, length-hex, length-index_final, length-state_final, length-state_temp,
  length-index_temp, length-manifest_temp, other_length, manifest_sequence-name,
  manifest_name-is_manifest,
}
use edge_proc.Localvec.Snapshots.Current.{Current}
use edge_proc.Localvec.Snapshots.Own.{
  index_temp-Own, state_temp-Own, manifest_temp-Own, index_final-Own, state_final-Own,
}
use edge_proc.Localvec.Snapshots.Stable.{
  IsFresh, payload-ok, payload-err, payload-cong, read_manifest-cong, length-generation,
}
use edge_proc.Localvec.Snapshots.Crash.{OwnOps, effects-Kept, moved}
use edge_proc.Localvec.Snapshots.Numbers.{next-above}

module _ (x : Formats) where
  abbrev pub snapshot : Text → Text → ℕ → Text → SnapshotPayload
  snapshot index state n gen = record {
    index_bytes = index;
    state_bytes = state;
    revision = record { sequence = n; generation = gen };
  }

  module _ (l : IsLawful x) (gen uuid index state : Text) (n : ℕ) (hex : is_hex_of 32 gen ≡ true)
      (named : length uuid ≡ 32) (low : 1 ≤ n) (high : n < 10 ^ 20) where
    unfoldable pub bytes : Text
    bytes = x.dump (manifest_for x n gen index state)

    unfoldable pub staged : List Op
    staged = stage_ops gen index state ++ written (manifest_temp uuid) bytes ∷ []

    pub commit_ops-eq :
        commit_ops x n gen uuid index state
        ≡ staged ++ renamed (manifest_temp uuid) (manifest_name n) ∷ []
    unfolding commit_ops staged stage_ops manifest_ops bytes
    commit_ops-eq = refl

    pub staged-Own : OwnOps gen staged
    unfolding staged stage_ops
    staged-Own =
        let size = length-hex 32 gen hex in
        (
          index_temp-Own gen size,
          (
            state_temp-Own gen size,
            (
              (index_temp-Own gen size, index_final-Own gen size),
              (
                (state_temp-Own gen size, state_final-Own gen size),
                (manifest_temp-Own gen uuid named, tt),
              ),
            ),
          ),
        )

    module _ (files : Files) where
      first : Files
      first = put files (index_temp gen) (file index)

      second : Files
      unfolding first
      second = put first (state_temp gen) (file state)

      third : Files
      unfolding second
      third = put (del second (index_temp gen)) (index_final gen) (file index)

      fourth : Files
      unfolding third
      fourth = put (del third (state_temp gen)) (state_final gen) (file state)

      index-moved : effect second (renamed (index_temp gen) (index_final gen)) ≡ third
      unfolding second first third
      index-moved = moved second (index_temp gen) (index_final gen) (file index) (
          ground (
            arith,
            other_length (state_temp gen) (index_temp gen)
                (λ e. omega (arith, e, length-state_temp gen, length-index_temp gen)),
            get-put first (state_temp gen) (index_temp gen) (file state),
            get-put files (index_temp gen) (index_temp gen) (file index),
          ))

      state-moved : effect third (renamed (state_temp gen) (state_final gen)) ≡ fourth
      unfolding third second fourth
      state-moved = moved third (state_temp gen) (state_final gen) (file state) (
          ground (
            arith,
            other_length (index_final gen) (state_temp gen)
                (λ e. omega (arith, e, length-index_final gen, length-state_temp gen)),
            other_length (index_temp gen) (state_temp gen)
                (λ e. omega (arith, e, length-index_temp gen, length-state_temp gen)),
            get-put (del second (index_temp gen)) (index_final gen) (state_temp gen) (file index),
            get-del second (index_temp gen) (state_temp gen),
            get-put first (state_temp gen) (state_temp gen) (file state),
          ))

      -- Each of the two renames moves what was written to its temporary file.
      stage_ops-fourth : effects files (stage_ops gen index state) ≡ fourth
      unfolding stage_ops effects effect first second
      stage_ops-fourth =
          ap (λ d. effect d (renamed (state_temp gen) (state_final gen))) index-moved ∙ state-moved

      staged-fourth : effects files staged ≡ put fourth (manifest_temp uuid) (file bytes)
      unfolding staged stage_ops effects effect
      staged-fourth = ap (λ d. put d (manifest_temp uuid) (file bytes)) stage_ops-fourth

      -- The two files of the generation, before the manifest is renamed
      staged-files :
          (get (effects files staged) (index_final gen) ≡ some (file index))
          × (get (effects files staged) (state_final gen) ≡ some (file state))
      unfolding third fourth
      staged-files =
          let size = length-hex 32 gen hex in
          let i = length-index_final gen in
          let s = length-state_final gen in
          let m = length-manifest_temp uuid in
          let mi =
            other_length (manifest_temp uuid) (index_final gen)
              (λ e. omega (arith, e, named, m, i, size)) in
          let ms =
            other_length (manifest_temp uuid) (state_final gen)
              (λ e. omega (arith, e, named, m, s, size)) in
          let si =
            other_length (state_final gen) (index_final gen) (λ e. omega (arith, e, s, i, size)) in
          let ti =
            other_length (state_temp gen) (index_final gen)
              (λ e. omega (arith, e, length-state_temp gen, i, size)) in
          (
            ap (λ d. get d (index_final gen)) staged-fourth
                ∙ ground (
                  arith,
                  mi,
                  si,
                  ti,
                  get-put fourth (manifest_temp uuid) (index_final gen) (file bytes),
                  get-put (del third (state_temp gen)) (state_final gen) (index_final gen)
                      (file state),
                  get-del third (state_temp gen) (index_final gen),
                  get-put (del second (index_temp gen)) (index_final gen) (index_final gen)
                      (file index),
                ),
            ap (λ d. get d (state_final gen)) staged-fourth
                ∙ ground (
                  arith,
                  ms,
                  get-put fourth (manifest_temp uuid) (state_final gen) (file bytes),
                  get-put (del third (state_temp gen)) (state_final gen) (state_final gen)
                      (file state),
                ),
          )

      staged-manifest : get (effects files staged) (manifest_temp uuid) ≡ some (file bytes)
      staged-manifest =
          ap (λ d. get d (manifest_temp uuid)) staged-fourth
          ∙ ground (arith, get-put fourth (manifest_temp uuid) (manifest_temp uuid) (file bytes))

    well_formed-new : well_formed (manifest_for x n gen index state) ≡ true
    unfolding well_formed manifest_for
    well_formed-new = ground (arith, low, hex, l.hex_digest index, l.hex_digest state)

    module _ (files : Files) where
      unfoldable pub after : Files
      after = effect (effects files staged) (renamed (manifest_temp uuid) (manifest_name n))

      get-after :
          (q : Text)
          → get after q ≡ (
              if manifest_name n == q
              then some (file bytes)
              else if manifest_temp uuid == q
              then none
              else get (effects files staged) q)
      unfolding after
      get-after q =
          ap (λ d. get d q)
            (moved (effects files staged) (manifest_temp uuid) (manifest_name n) (file bytes)
              (staged-manifest files))
          ∙ ground (
            arith,
            get-put (del (effects files staged) (manifest_temp uuid)) (manifest_name n) q
                (file bytes),
            get-del (effects files staged) (manifest_temp uuid) q,
          )

      -- The rename leaves what is neither a manifest nor the temporary file.
      get-data :
          (q : Text) → length q ≢ 34 → length q ≢ 46 → get after q ≡ get (effects files staged) q
      get-data q a b =
          let na =
            other_length (manifest_name n) q
              (λ e. a (sym e ∙ length-manifest (manifest_name n) (manifest_name-is_manifest n))) in
          let nb =
            other_length (manifest_temp uuid) q
              (λ e. b (omega (arith, e, named, length-manifest_temp uuid))) in
          ground (arith, get-after q, na, nb)

      read-new : read_manifest x after (manifest_name n) ≡ ok (manifest_for x n gen index state)
      unfolding read_manifest read_regular_bytes parse_manifest bytes
      read-new =
          let here : get after (manifest_name n) ≡ some (file bytes) =
            ground (arith, get-after (manifest_name n)) in
          let loads : x.load bytes ≡ some (manifest_for x n gen index state) =
            l.load-dump (manifest_for x n gen index state) in
          rw (read_manifest, read_regular_bytes, here, parse_manifest, loads, well_formed-new) refl

      opened-new :
          open_verified_generation x after after (manifest_for x n gen index state)
          ≡ ok (snapshot index state n gen)
      unfolding open_verified_generation read_regular_bytes manifest_for
      opened-new =
          let size = length-hex 32 gen hex in
          let (i, s) = staged-files files in
          let at-index : read_regular_bytes after (index_final gen) ≡ ok index =
            rw
              (
                read_regular_bytes,
                get-data (index_final gen) (λ e. omega (arith, e, size, length-index_final gen))
                      (λ e. omega (arith, e, size, length-index_final gen))
                    ∙ i,
              )
              refl in
          let at-state : read_regular_bytes after (state_final gen) ≡ ok state =
            rw
              (
                read_regular_bytes,
                get-data (state_final gen) (λ e. omega (arith, e, size, length-state_final gen))
                      (λ e. omega (arith, e, size, length-state_final gen))
                    ∙ s,
              )
              refl in
          ap₂ (opened x (manifest_for x n gen index state)) at-index at-state ∙ ground arith

      payload-new : payload x after (manifest_name n) ≡ ok (snapshot index state n gen)
      unfolding manifest_for
      payload-new =
          payload-ok x after (manifest_name n) (manifest_for x n gen index state) read-new
          ∙ ap
              (λ m.
                if n == m
                then open_verified_generation x after after (manifest_for x n gen index state)
                else err value)
              (manifest_sequence-name n high)
          ∙ rw (opened-new) (ground arith)

      payload-old :
          (y : Text)
          → is_manifest y ≡ true
          → (manifest_name n == y) ≡ false
          → payload x after y ≡ payload x (effects files staged) y
      payload-old y h ne =
          let e : get after y ≡ get (effects files staged) y = ground (
            arith,
            get-after y,
            ne,
            other_length (manifest_temp uuid) y
                (λ e'. omega (arith, e', named, length-manifest_temp uuid, length-manifest y h)),
          ) in
          elim (Result-cases (read_manifest x (effects files staged) y)) [
            | inr (bad, r) ↦
                payload-err x after y bad
                  (read_manifest-cong x (effects files staged) after y e ∙ r)
                ∙ sym (payload-err x (effects files staged) y bad r)
            | inl (m, r) ↦
                let size = length-generation x (effects files staged) y m r in
                let i = length-index_final m.generation in
                let s = length-state_final m.generation in
                payload-cong x (effects files staged) after y m r e
                  (get-data (index_final m.generation) (λ e'. omega (arith, e', size, i))
                    (λ e'. omega (arith, e', size, i)))
                  (get-data (state_final m.generation) (λ e'. omega (arith, e', size, s))
                    (λ e'. omega (arith, e', size, s)))
          ]

      pub Current-new :
          IsFresh x files gen
          → next_sequence x files ≡ ok n
          → Current x after (manifest_name n) (snapshot index state n gen)
      Current-new fresh next = record {
        manifest = manifest_name-is_manifest n;
        holds = payload-new;
        newest = λ y. elim (Bool-cases (is_manifest y)) [
          | inr no' ↦ ground (arith, no')
          | inl yes' ↦ elim (text_eq.dec y (manifest_name n)) [
            | yes same ↦ ground (arith, same)
            | no differ ↦ elim (Bool-cases (is_complete x files y)) [
              | inl whole ↦ ground (
                arith,
                yes',
                next-above x files n y next yes' whole,
                manifest_sequence-name n high,
              )
              | inr torn ↦
                  let same : is_complete x after y ≡ is_complete x files y =
                    ap (completes x) (payload-old y yes' (other y differ) ∙ unchanged-at y yes') in
                  ground (arith, yes', differ, same, torn)
            ]
          ]
        ];
      }
        where
          other : (y : Text) → y ≢ manifest_name n → (manifest_name n == y) ≡ false
          other y d = elim (text_eq.dec (manifest_name n) y) [
            | yes e ↦ absurd (d (sym e))
            | no m ↦ ground (arith, m)
          ]

          unchanged-at :
              (y : Text)
              → is_manifest y ≡ true
              → payload x (effects files staged) y ≡ payload x files y
          unchanged-at y h =
              let kept = effects-Kept x gen files staged staged-Own fresh in
              ground (arith, kept.unchanged y, h)
