-- ===== src/Colors.antt =====
-- color.c: colours as `#RRGGBB` and `#RRGGBBAA`. Characters are their codes. strtoul() is the C
-- library's, in base 16: it skips white space, takes a sign and a `0x`, and reads digits; a number that
-- does not fit has more digits than any string that is accepted is long.
pub mod RoundTrip
use somewm.Common.{
  ℕ, suc, ◌+◌, ◌-◌, ◌*◌, ◌/◌, ◌%◌, Bool, true, false, ◌&&◌, ◌||◌, not, Option, none, some, List, [],
  ◌∷◌, ◌++◌, ◌==◌, ltb, leb, if◌then◌else◌, length, drop,
}

-- `color_t`.
pub record Color : Type 0 where
  pub red : ℕ
  pub green : ℕ
  pub blue : ℕ
  pub alpha : ℕ
  pub initialized : Bool

pub hex_value : ℕ → Option ℕ
hex_value c =
    if leb 48 c && leb c 57
    then some (c - 48)
    else if leb 97 c && leb c 102
    then some (c - 87)
    else if leb 65 c && leb c 70
    then some (c - 55)
    else none

-- The digits, with the value and the number of those read so far.
pub read_digits : ℕ → ℕ → List ℕ → ℕ × ℕ
read_digits v n [] = (v, n)
read_digits v n (c ∷ cs) = elim (hex_value c) [
  | none ↦ (v, n)
  | some d ↦ read_digits (v * 16 + d) (n + 1) cs
]

-- Whether a `0x` and a digit follow.
has_prefix : List ℕ → Bool
has_prefix (z ∷ x ∷ d ∷ cs) =
    (z == 48 && (x == 120 || x == 88)) && elim (hex_value d) [ none ↦ false | some _ ↦ true ]
has_prefix _ = false

-- The number after `n` characters, and where it ends: at 0 if there is none.
read_number : Bool → ℕ → List ℕ → ℕ × ℕ
read_number neg n cs =
    let skip = if has_prefix cs then 2 else 0 in
    let (v, k) = read_digits 0 0 (drop skip cs) in
    if k == 0
    then (0, 0)
    else (if neg then (18446744073709551616 - v) % 18446744073709551616 else v, n + skip + k)

read_sign : ℕ → List ℕ → ℕ × ℕ
read_sign n [] = (0, 0)
read_sign n (c ∷ cs) =
    if c == 43
    then read_number false (n + 1) cs
    else if c == 45
    then read_number true (n + 1) cs
    else read_number false n (c ∷ cs)

pub strtoul : ℕ → List ℕ → ℕ × ℕ
strtoul n [] = (0, 0)
strtoul n (c ∷ cs) =
    let rest = strtoul (n + 1) cs in
    if c == 32 || (leb 9 c && leb c 13) then rest else read_sign n (c ∷ cs)

first_is : ℕ → List ℕ → Bool
first_is c [] = false
first_is c (d ∷ ds) = d == c

-- The components are written to the colour also when the answer is false.
pub color_parse : List ℕ → Color → Bool × Color
color_parse colstr color =
    let (num, used) = strtoul 0 (drop 1 colstr) in
    let long = length colstr == 9 && used + 1 == 9 in
    let alpha = if long then num % 256 else 255 in
    let colnum = if long then num / 256 else num in
    let len = if long then 7 else length colstr in
    let end = if long then 7 else used + 1 in
    if not (len == 7) || not (first_is 35 colstr) || not (end == 7)
    then (false, record color { alpha = alpha })
    else (
      true,
      record color {
        red = colnum / 65536 % 256;
        green = colnum / 256 % 256;
        blue = colnum % 256;
        alpha = alpha;
      },
    )

pub color_init_from_string : List ℕ → Color → Bool × Color
color_init_from_string [] color = (false, color)
color_init_from_string (c ∷ cs) color =
    let (ok, parsed) = color_parse (c ∷ cs) color in
    (ok, if ok then record parsed { initialized = true } else parsed)

pub color_to_uint32 : Color → ℕ
color_to_uint32 c = c.alpha * 16777216 + c.red * 65536 + c.green * 256 + c.blue

-- The digits of `%02x`.
pub hex_digit : ℕ → ℕ
hex_digit d = if ltb d 10 then d + 48 else d + 87

pub hex_byte : ℕ → List ℕ
hex_byte v = hex_digit (v / 16) ∷ hex_digit (v % 16) ∷ []

-- luaA_pushcolor(): `none` is nil.
pub push_color : Color → Option (List ℕ)
push_color c =
    if not c.initialized
    then none
    else some (
        35
        ∷ (hex_byte c.red
            ++ (hex_byte c.green
                ++ (hex_byte c.blue ++ (if leb 255 c.alpha then [] else hex_byte c.alpha)))))
