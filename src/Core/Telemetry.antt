-- ===== src/Core/Telemetry.antt =====
-- edgeproc/core/telemetry.py: the ring of recent envelopes. A `deque` with a `maxlen` drops from the
-- left on an append that passes it.
use edge_proc.Prelude.{
  ℕ, zero, suc, ◌-◌, ◌≤◌, ◌≡◌, refl, sym, ap, ◌∙◌, List, [], ◌∷◌, ◌++◌, arith, length, drop,
  length-append, drop-drop, drop_all, length-drop,
}
use mathlib.Core.List.{append-nil, append_assoc}

pub record BufferedSink (A : Type 0) : Type 0 where
  pub maxlen : ℕ
  pub buffer : List A

module _ {A : Type 0} where
  pub emit : BufferedSink A → A → BufferedSink A
  emit s e =
      let grown = s.buffer ++ e ∷ [] in record s { buffer = drop (length grown - s.maxlen) grown }

  -- The envelopes of `es`, one call of `emit` after another.
  pub emit_each : BufferedSink A → List A → BufferedSink A
  emit_each s [] = s
  emit_each s (e ∷ es) = emit_each (emit s e) es

  -- `drop` of a part that the front holds leaves the back alone.
  drop-append : (k : ℕ) (xs ys : List A) → k ≤ length xs → drop k xs ++ ys ≡ drop k (xs ++ ys)
  drop-append zero xs ys h = refl
  drop-append (suc k) [] ys h = absurd (omega arith)
  drop-append (suc k) (x ∷ xs) ys h = drop-append k xs ys (omega arith)

  -- the latest `maxlen` items of `es`
  abbrev latest : ℕ → List A → List A
  latest n es = drop (length es - n) es

  latest-emit :
      (n : ℕ) (seen : List A) (e : A)
      → latest n (latest n seen ++ e ∷ []) ≡ latest n (seen ++ e ∷ [])
  latest-emit n seen e =
      let k : ℕ = length seen - n in
      rw (drop-append k seen (e ∷ []) (omega arith)) (
        drop-drop _ k _ (seen ++ e ∷ [])
          (omega (arith, length-append seen (e ∷ []), length-drop k (seen ++ e ∷ []))))

  emit_each-latest :
      (n : ℕ) (seen es : List A)
      → (emit_each (record { maxlen = n; buffer = latest n seen }) es).buffer
        ≡ latest n (seen ++ es)
  unfolding emit emit_each
  emit_each-latest n seen [] = rw append-nil
  emit_each-latest n seen (e ∷ es) =
      ap (λ b. (emit_each (record { maxlen = n; buffer = b }) es).buffer) (latest-emit n seen e)
      ∙ emit_each-latest n (seen ++ e ∷ []) es
      ∙ ap (latest n) (append_assoc seen (e ∷ []) es)

  -- After any number of envelopes an empty sink holds the latest `maxlen` of them, oldest first.
  pub buffer-emit_each :
      (n : ℕ) (es : List A)
      → (emit_each (record { maxlen = n; buffer = [] }) es).buffer ≡ drop (length es - n) es
  buffer-emit_each n es =
      ap (λ b. (emit_each (record { maxlen = n; buffer = b }) es).buffer)
        (sym (drop_all (0 - n) [] (omega arith)))
      ∙ emit_each-latest n [] es
