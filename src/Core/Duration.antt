-- ===== src/Core/Duration.antt =====
-- `parse_duration` of edgeproc/core/settings.py. The regex `([0-9]+)([smhdw]?)` is matched by its
-- greedy reading, which is its only one, since no unit is a digit. `int` refuses more than 4300
-- digits with the same `ValueError`; every `ValueError` is `none`.
pub mod Grammar
use mathlib.Core.List.{reverse, foldl}
use edge_proc.Prelude.{
  ℕ, ◌+◌, ◌-◌, ◌*◌, ◌^◌, Bool, true, false, ◌&&◌, ◌||◌, Option, none, some, List, [], ◌∷◌, length,
  contains, ltb, leb, ◌==◌, nat_eq, if◌then◌else◌, Text,
}

-- `str.isspace`
abbrev pub spaces : List ℕ
spaces =
    9 ∷ 10 ∷ 11 ∷ 12 ∷ 13 ∷ 28 ∷ 29 ∷ 30 ∷ 31 ∷ 32 ∷ 133 ∷ 160 ∷ 5760 ∷ 8192 ∷ 8193 ∷ 8194 ∷ 8195
    ∷ 8196 ∷ 8197 ∷ 8198 ∷ 8199 ∷ 8200 ∷ 8201 ∷ 8202 ∷ 8232 ∷ 8233 ∷ 8239 ∷ 8287 ∷ 12288 ∷ []

pub is_space : ℕ → Bool
is_space c = contains spaces c

pub lstrip : Text → Text
unfolding is_space
lstrip [] = []
lstrip (c ∷ t) = if is_space c then lstrip t else c ∷ t

-- `text.strip()`
pub strip : Text → Text
unfolding lstrip
strip t = reverse (lstrip (reverse (lstrip t)))

abbrev pub is_digit : ℕ → Bool
is_digit c = leb b'0' c && leb c b'9'

-- `[0-9]+`, or as many as there are, and the rest
pub span_digits : Text → Text × Text
span_digits [] = ([], [])
span_digits (c ∷ t) =
    let (ds, rest) = span_digits t in if is_digit c then (c ∷ ds, rest) else ([], c ∷ t)

-- `int(digits)`, of ASCII digits
pub value_from : ℕ → Text → ℕ
value_from acc [] = acc
value_from acc (c ∷ t) = value_from (acc * 10 + (c - b'0')) t

-- `_UNIT_SECONDS`
pub unit_seconds : Text → Option ℕ
unit_seconds [] = some 1
unit_seconds (u ∷ []) =
    if u == b's'
    then some 1
    else if u == b'm'
    then some 60
    else if u == b'h'
    then some 3600
    else if u == b'd'
    then some 86_400
    else if u == b'w'
    then some 604_800
    else none
unit_seconds _ = none

abbrev pub max_duration_seconds : ℕ
max_duration_seconds = 2 ^ 52

abbrev pub max_str_digits : ℕ
max_str_digits = 4300

-- `if not 0 < seconds <= _MAX_DURATION_SECONDS: raise`
pub in_range : ℕ → Option ℕ
in_range seconds = if ltb 0 seconds && leb seconds max_duration_seconds then some seconds else none

pub of_match : Text → Option ℕ → Option ℕ
unfolding value_from in_range
of_match [] unit = none
of_match (d ∷ ds) none = none
of_match (d ∷ ds) (some unit) =
    if leb (length (d ∷ ds)) max_str_digits then in_range (value_from 0 (d ∷ ds) * unit) else none

unfoldable pub parse_duration : Text → Option ℕ
unfolding strip span_digits unit_seconds of_match
parse_duration text = let (ds, rest) = span_digits (strip text) in of_match ds (unit_seconds rest)
