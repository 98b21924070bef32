-- ===== src/Core/Duration/Grammar.antt =====
-- Which texts `parse_duration` takes, and what they are worth.
use edge_proc.Prelude.{
  ℕ, ◌*◌, ◌<◌, ◌≤◌, ◌≡◌, ◌↔◌, refl, sym, true, Option, none, some, [], ◌∷◌, ◌++◌, length, leb,
  nat_eq, Text, arith, Bool-cases, inl, inr,
}
use edge_proc.Prelude.Members.{All}
use edge_proc.Core.Duration.{
  strip, is_digit, span_digits, value_from, unit_seconds, of_match, in_range, max_duration_seconds,
  max_str_digits, parse_duration,
}

abbrev pub IsDigit : ℕ → Type 0
IsDigit c = is_digit c ≡ true

-- Digits and a unit, with their value: at most 4300 digits, and a product in the range.
pub record Reads (text : Text) (seconds : ℕ) : Type 0 where
  pub digits : Text
  pub suffix : Text
  pub unit : ℕ
  pub split : strip text ≡ digits ++ suffix
  pub all_digits : All IsDigit digits
  pub some_digit : 0 < length digits
  pub few_digits : length digits ≤ max_str_digits
  pub of_suffix : unit_seconds suffix ≡ some unit
  pub worth : seconds ≡ value_from 0 digits * unit
  pub is_positive : 0 < seconds
  pub is_capped : seconds ≤ max_duration_seconds

span_digits-append : (t : Text) → (span_digits t).0 ++ (span_digits t).1 ≡ t
unfolding span_digits
span_digits-append [] = refl
span_digits-append (c ∷ t) = ground (arith, span_digits-append t)

span_digits-All : (t : Text) → All IsDigit (span_digits t).0
unfolding span_digits
span_digits-All [] = tt
span_digits-All (c ∷ t) = elim (Bool-cases (is_digit c)) [
  | inl yes' ↦ rw yes' (yes', span_digits-All t)
  | inr no' ↦ rw no' tt
]

-- No unit is a digit.
span_digits-unit :
    (rest : Text) (u : ℕ) → unit_seconds rest ≡ some u → span_digits rest ≡ ([], rest)
unfolding span_digits unit_seconds
span_digits-unit [] u h = refl
span_digits-unit (c ∷ []) u h = ground arith
span_digits-unit (c ∷ d ∷ r) u h = cc

span_digits_max :
    (ds rest : Text) (u : ℕ)
    → All IsDigit ds
    → unit_seconds rest ≡ some u
    → span_digits (ds ++ rest) ≡ (ds, rest)
unfolding span_digits
span_digits_max [] rest u a h = span_digits-unit rest u h
span_digits_max (d ∷ ds) rest u a h = rw (span_digits_max ds rest u a.1 h, a.0)

abbrev Worth : Text → ℕ → ℕ → Type 0
Worth ds u seconds =
    (0 < length ds)
    × (length ds ≤ max_str_digits)
    × (seconds ≡ value_from 0 ds * u)
    × (0 < seconds)
    × (seconds ≤ max_duration_seconds)

in_range_inv :
    (n seconds : ℕ)
    → in_range n ≡ some seconds
    → (seconds ≡ n) × (0 < seconds) × (seconds ≤ max_duration_seconds)
unfolding in_range
in_range_inv n seconds h = ground arith

of_match_inv :
    (ds : Text) (unit : Option ℕ) (seconds : ℕ)
    → of_match ds unit ≡ some seconds
    → (u : ℕ) × (unit ≡ some u) × Worth ds u seconds
unfolding of_match
of_match_inv [] unit seconds h = cc
of_match_inv (d ∷ ds) none seconds h = cc
of_match_inv (d ∷ ds) (some u) seconds h =
    elim (Bool-cases (leb (length (d ∷ ds)) max_str_digits)) [
      | inl few ↦
          let (e, p, q) = in_range_inv (value_from 0 (d ∷ ds) * u) seconds (rw few at h) in
          (u, refl, (omega arith, ground arith, e, p, q))
      | inr many ↦ absurd (ground arith)
    ]

of_match-Worth :
    (ds : Text) (u seconds : ℕ) → Worth ds u seconds → of_match ds (some u) ≡ some seconds
unfolding of_match in_range
of_match-Worth [] u seconds w = absurd (omega arith)
of_match-Worth (d ∷ ds) u seconds w = ground arith

-- `parse_duration` returns `seconds` exactly when the text, less the white space around it, is a
-- run of at most 4300 digits and an optional unit whose product is `seconds`, above 0 and at most
-- 2 ** 52.
pub parse_duration_iff :
    (text : Text) (seconds : ℕ) → (parse_duration text ≡ some seconds) ↔ Reads text seconds
unfolding parse_duration
parse_duration_iff text seconds = (
  λ h.
      let (ds, rest) = span_digits (strip text) in
      let (u, unit, w) = of_match_inv ds (unit_seconds rest) seconds h in
      record {
        digits = ds;
        suffix = rest;
        unit = u;
        split = sym (span_digits-append (strip text));
        all_digits = span_digits-All (strip text);
        some_digit = w.0;
        few_digits = w.1;
        of_suffix = unit;
        worth = w.2;
        is_positive = w.3;
        is_capped = w.4;
      },
  λ r.
      rw
        (
          r.split,
          parse_duration,
          span_digits_max r.digits r.suffix r.unit r.all_digits r.of_suffix,
          r.of_suffix,
        )
        (of_match-Worth r.digits r.unit seconds
          (r.some_digit, r.few_digits, r.worth, r.is_positive, r.is_capped)),
)
