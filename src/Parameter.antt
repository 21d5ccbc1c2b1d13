-- ===== src/Parameter.antt =====
-- domain/parameter/value.go: typed values, and numbers in their canonical form.
use healix_core.Prelude.{
  Text, ℕ, zero, suc, ◌+◌, ◌-◌, ◌*◌, Bool, true, false, not, ◌&&◌, ◌||◌, List, [], ◌∷◌, ◌++◌,
  Option, none, some, ltb, leb, ◌==◌, if◌then◌else◌, text_eq, is_empty, codes, length, take, drop,
}

pub data ValueType : Type 0 where
  text number boolean single_select multi_select : ValueType
  other_type : Text → ValueType

pub record Value : Type 0 where
  pub kind : ValueType
  pub text : Text
  pub boolean : Bool
  pub multi : List Text

abbrev pub max_value_bytes : ℕ
max_value_bytes = 64 * 1024

abbrev is_digit : ℕ → Bool
is_digit c = leb 48 c && leb c 57

-- The digits at the front of a text, and the rest.
unfoldable pub span_digits : Text → Text × Text
span_digits [] = ([], [])
span_digits (c ∷ rest) =
    let deeper : Text × Text = span_digits rest in
    if is_digit c then (c ∷ deeper.0, deeper.1) else ([], c ∷ rest)

-- A sign at the front of a text, whether it is a minus, and the rest.
abbrev pub read_sign : Text → Bool × Text
read_sign [] = (false, [])
read_sign (c ∷ rest) =
    if c == 45 then (true, rest) else if c == 43 then (false, rest) else (false, c ∷ rest)

pub record Decimal : Type 0 where
  pub negative : Bool
  pub whole : Text
  pub fraction : Text
  pub exponent_negative : Bool
  pub exponent : Text

-- What may follow the digits before and after the point.
unfoldable pub read_exponent : Text → Option (Bool × Text)
unfolding span_digits
read_exponent [] = some (false, [])
read_exponent (c ∷ rest) =
    let sign : Bool × Text = read_sign rest in
    let digits : Text × Text = span_digits sign.1 in
    if (c == 69 || c == 101) && not (is_empty digits.0) && is_empty digits.1
    then some (sign.0, digits.0)
    else none

abbrev read_fraction : Text → Text × Text
read_fraction [] = ([], [])
read_fraction (c ∷ rest) = if c == 46 then span_digits rest else ([], c ∷ rest)

-- `decimalPattern`
unfoldable pub match_decimal : Text → Option Decimal
unfolding span_digits read_exponent
match_decimal input =
    let sign : Bool × Text = read_sign input in
    let whole : Text × Text = span_digits sign.1 in
    let fraction : Text × Text = read_fraction whole.1 in
    if is_empty whole.0 then none else elim (read_exponent fraction.1) [
      | none ↦ none
      | some e ↦ some (record {
        negative = sign.0;
        whole = whole.0;
        fraction = fraction.0;
        exponent_negative = e.0;
        exponent = e.1;
      })
    ]

unfoldable pub read_number : ℕ → Text → ℕ
read_number value [] = value
read_number value (c ∷ rest) = read_number (value * 10 + (c - 48)) rest

unfoldable pub trim_left_zeros : Text → Text
trim_left_zeros [] = []
trim_left_zeros (c ∷ rest) = if c == 48 then trim_left_zeros rest else c ∷ rest

-- `strings.TrimRight(s, c)`
unfoldable pub trim_right : ℕ → Text → Text
trim_right c [] = []
trim_right c (d ∷ rest) =
    let trimmed : Text = trim_right c rest in if d == c && is_empty trimmed then [] else d ∷ trimmed

unfoldable pub repeat_zero : ℕ → Text
repeat_zero zero = []
repeat_zero (suc n) = 48 ∷ repeat_zero n

unfoldable pub has_point : Text → Bool
has_point [] = false
has_point (c ∷ rest) = c == 46 || has_point rest

-- The digits with the point `down` places from the right end, after `up` more zeros.
unfoldable pub place_point : ℕ → Text → ℕ → ℕ → Option Text
unfolding repeat_zero
place_point budget digits up down =
    if leb down up
    then (if ltb budget (length digits + (up - down))
        then none
        else some (digits ++ repeat_zero (up - down)))
    else if leb (length digits) (down - up)
    then (if ltb budget (down - up + 2)
        then none
        else some (codes "0." ++ repeat_zero (down - up - length digits) ++ digits))
    else some (
        take (length digits - (down - up)) digits
        ++ codes "."
        ++ drop (length digits - (down - up)) digits)

abbrev trim_point : Text → Text
trim_point result = if has_point result then trim_right 46 (trim_right 48 result) else result

unfoldable pub canonical_decimal : Text → Option Text
unfolding match_decimal read_number trim_left_zeros trim_right place_point has_point
canonical_decimal input =
    if ltb max_value_bytes (length input) then none else elim (match_decimal input) [
      | none ↦ none
      | some d ↦
          let exponent : ℕ = read_number 0 d.exponent in
          let digits : Text = trim_left_zeros (d.whole ++ d.fraction) in
          let up : ℕ = if d.exponent_negative then 0 else exponent in
          let down : ℕ = length d.fraction + (if d.exponent_negative then exponent else 0) in
          let budget : ℕ = if d.negative then max_value_bytes - 1 else max_value_bytes in
          if ltb 100000 exponent
          then none
          else if is_empty digits
          then some (codes "0")
          else elim (place_point budget digits up down) [
            | none ↦ none
            | some placed ↦
                let trimmed : Text = trim_point placed in
                let result : Text = if is_empty trimmed then codes "0" else trimmed in
                let signed : Text =
                  if d.negative && not (text_eq result (codes "0")) then 45 ∷ result else result in
                if ltb max_value_bytes (length signed) then none else some signed
          ]
    ]

-- `NewNumberValue`
unfoldable pub new_number_value : Text → Option Value
unfolding canonical_decimal
new_number_value input = elim (canonical_decimal input) [
  | none ↦ none
  | some canonical ↦
      some (record { kind = ValueType.number; text = canonical; boolean = false; multi = [] })
]

unfoldable pub fits_all : List Text → Bool
fits_all [] = true
fits_all (item ∷ rest) = not (ltb max_value_bytes (length item)) && fits_all rest

abbrev is_same : Option Text → Text → Bool
is_same none input = false
is_same (some canonical) input = text_eq canonical input

-- `Value.Validate`
unfoldable pub is_valid_value : Value → Bool
unfolding canonical_decimal fits_all
is_valid_value v = elim v.kind [
  | ValueType.text ↦ not (ltb max_value_bytes (length v.text))
  | ValueType.single_select ↦ not (ltb max_value_bytes (length v.text))
  | ValueType.number ↦ is_same (canonical_decimal v.text) v.text
  | ValueType.boolean ↦ true
  | ValueType.multi_select ↦ fits_all v.multi
  | ValueType.other_type _ ↦ false
]
