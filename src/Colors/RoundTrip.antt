-- ===== src/Colors/RoundTrip.antt =====
-- A colour that is printed is read back as it was.
use mathlib.Core.List.{append-nil}
use somewm.Common.{
  ℕ, suc, ◌+◌, ◌*◌, ◌/◌, ◌%◌, ◌<◌, ◌≡◌, ◌≢◌, refl, sym, ap, ◌∙◌, inl, inr, Bool, true, false, ◌&&◌,
  ◌||◌, some, List, [], ◌∷◌, ◌++◌, ◌==◌, leb, if◌then◌else◌, Bool-cases, length, arith,
}
use somewm.Colors.{
  Color, hex_value, read_digits, has_prefix, read_number, read_sign, strtoul, first_is, color_parse,
  color_init_from_string, hex_digit, hex_byte, push_color,
}

hex_value-hex_digit : (d : ℕ) → d < 16 → hex_value (hex_digit d) ≡ some d
unfolding hex_value hex_digit
hex_value-hex_digit d h = ground arith

read_digits-hex_digit :
    (v n d : ℕ) (cs : List ℕ)
    → d < 16
    → read_digits v n (hex_digit d ∷ cs) ≡ read_digits (v * 16 + d) (n + 1) cs
unfolding read_digits
read_digits-hex_digit v n d cs h = rw (hex_value-hex_digit d h, read_digits) refl

read_digits-hex_byte :
    (v n b : ℕ) (cs : List ℕ)
    → b < 256
    → read_digits v n (hex_byte b ++ cs) ≡ read_digits (v * 256 + b) (n + 2) cs
unfolding hex_byte
read_digits-hex_byte v n b cs h =
    let value : (v * 16 + b / 16) * 16 + b % 16 ≡ v * 256 + b = omega arith in
    let count : (n + 1) + 1 ≡ n + 2 = omega arith in
    read_digits-hex_digit v n (b / 16) (hex_digit (b % 16) ∷ cs) (omega arith)
    ∙ read_digits-hex_digit (v * 16 + b / 16) (n + 1) (b % 16) cs (omega arith)
    ∙ ap (λ (x : ℕ). read_digits x ((n + 1) + 1) cs) value
    ∙ ap (λ (m : ℕ). read_digits (v * 256 + b) m cs) count

-- A digit is no white space, no sign, and no `x`.
hex_digit-plain :
    (d : ℕ)
    → d < 16
    → ((hex_digit d == 32 || (leb 9 (hex_digit d) && leb (hex_digit d) 13)) ≡ false)
      × ((hex_digit d == 43) ≡ false)
      × ((hex_digit d == 45) ≡ false)
      × ((hex_digit d == 120 || hex_digit d == 88) ≡ false)
unfolding hex_digit
hex_digit-plain d h = (ground arith, ground arith, ground arith, ground arith)

has_prefix-hex :
    (d e : ℕ) (cs : List ℕ) → e < 16 → has_prefix (hex_digit d ∷ hex_digit e ∷ cs) ≡ false
unfolding has_prefix
has_prefix-hex d e [] h = refl
has_prefix-hex d e (f ∷ cs) h = ground (arith, hex_digit-plain e h)

numeral : (r : ℕ × ℕ) → r.1 ≢ 0 → (if r.1 == 0 then (0, 0) else (r.0, 0 + 0 + r.1)) ≡ r
numeral (v, k) h =
    let some_read : (k == 0) ≡ false = ground arith in
    let count : 0 + 0 + k ≡ k = omega arith in rw (some_read, count) refl

-- On two digits or more, strtoul() is the digits.
strtoul-hex :
    (d e : ℕ) (cs : List ℕ)
    → d < 16
    → e < 16
    → (read_digits 0 0 (hex_digit d ∷ hex_digit e ∷ cs)).1 ≢ 0
    → strtoul 0 (hex_digit d ∷ hex_digit e ∷ cs) ≡ read_digits 0 0 (hex_digit d ∷ hex_digit e ∷ cs)
unfolding strtoul read_sign read_number
strtoul-hex d e cs h k n =
    let (s, p, m, x) = hex_digit-plain d h in
    rw (s, p, m, has_prefix-hex d e cs k)
      (numeral (read_digits 0 0 (hex_digit d ∷ hex_digit e ∷ cs)) n)

byte-split : (b : ℕ) → hex_byte b ≡ hex_digit (b / 16) ∷ hex_digit (b % 16) ∷ []
unfolding hex_byte
byte-split b = refl

-- The components are bytes.
pub record IsBytes (c : Color) : Type 0 where
  pub red : c.red < 256
  pub green : c.green < 256
  pub blue : c.blue < 256
  pub alpha : c.alpha < 256

strtoul-hex_byte :
    (b : ℕ) (cs : List ℕ)
    → b < 256
    → (read_digits 0 0 (hex_byte b ++ cs)).1 ≢ 0
    → strtoul 0 (hex_byte b ++ cs) ≡ read_digits 0 0 (hex_byte b ++ cs)
unfolding hex_byte
strtoul-hex_byte b cs h n = strtoul-hex (b / 16) (b % 16) cs (omega arith) (omega arith) n

-- Three bytes and what follows.
read_three :
    (r g b : ℕ) (cs : List ℕ)
    → r < 256
    → g < 256
    → b < 256
    → read_digits 0 0 (hex_byte r ++ (hex_byte g ++ (hex_byte b ++ cs)))
      ≡ read_digits ((r * 256 + g) * 256 + b) 6 cs
read_three r g b cs hr hg hb =
    read_digits-hex_byte 0 0 r (hex_byte g ++ (hex_byte b ++ cs)) hr
    ∙ read_digits-hex_byte (0 * 256 + r) (0 + 2) g (hex_byte b ++ cs) hg
    ∙ read_digits-hex_byte ((0 * 256 + r) * 256 + g) (0 + 2 + 2) b cs hb
    ∙ rw (value, count) refl
  where
    value : (((0 * 256 + r) * 256 + g) * 256 + b) ≡ (r * 256 + g) * 256 + b
    value = omega arith

    count : 0 + 2 + 2 + 2 ≡ 6
    count = refl

read_end : (v n : ℕ) → read_digits v n [] ≡ (v, n)
unfolding read_digits
read_end v n = refl

length-hex_byte : (b : ℕ) (cs : List ℕ) → length (hex_byte b ++ cs) ≡ suc (suc (length cs))
unfolding hex_byte
length-hex_byte b cs = refl

-- The number that follows the `#`, and where it ends.
strtoul-short :
    (r g b : ℕ)
    → r < 256
    → g < 256
    → b < 256
    → strtoul 0 (hex_byte r ++ (hex_byte g ++ (hex_byte b ++ []))) ≡ ((r * 256 + g) * 256 + b, 6)
strtoul-short r g b hr hg hb =
    let e = read_three r g b [] hr hg hb ∙ read_end ((r * 256 + g) * 256 + b) 6 in
    strtoul-hex_byte r (hex_byte g ++ (hex_byte b ++ [])) hr (λ z. ground (arith, e)) ∙ e

strtoul-long :
    (r g b a : ℕ)
    → r < 256
    → g < 256
    → b < 256
    → a < 256
    → strtoul 0 (hex_byte r ++ (hex_byte g ++ (hex_byte b ++ (hex_byte a ++ []))))
      ≡ (((r * 256 + g) * 256 + b) * 256 + a, 8)
strtoul-long r g b a hr hg hb ha =
    let v = (r * 256 + g) * 256 + b in
    let e =
      read_three r g b (hex_byte a ++ []) hr hg hb
      ∙ read_digits-hex_byte v 6 a [] ha
      ∙ read_end (v * 256 + a) (6 + 2) in
    strtoul-hex_byte r (hex_byte g ++ (hex_byte b ++ (hex_byte a ++ []))) hr
      (λ z. ground (arith, e))
    ∙ e

parse-short :
    (s : List ℕ) (c : Color) (n : ℕ)
    → length s ≡ 6
    → strtoul 0 s ≡ (n, 6)
    → color_parse (35 ∷ s) c ≡ (
      true,
      record c { red = n / 65536 % 256; green = n / 256 % 256; blue = n % 256; alpha = 255 },
    )
unfolding color_parse first_is
parse-short s c n h e = rw (h, e) refl

parse-long :
    (s : List ℕ) (c : Color) (n : ℕ)
    → length s ≡ 8
    → strtoul 0 s ≡ (n, 8)
    → color_parse (35 ∷ s) c ≡ (
      true,
      record c {
        red = n / 256 / 65536 % 256;
        green = n / 256 / 256 % 256;
        blue = n / 256 % 256;
        alpha = n % 256;
      },
    )
unfolding color_parse first_is
parse-long s c n h e = rw (h, e) refl

init-parse :
    (s : List ℕ) (c p : Color)
    → color_parse (35 ∷ s) c ≡ (true, p)
    → color_init_from_string (35 ∷ s) c ≡ (true, record p { initialized = true })
unfolding color_init_from_string
init-parse s c p h = rw h refl

same_color :
    (c : Color) (r g b a : ℕ)
    → r ≡ c.red
    → g ≡ c.green
    → b ≡ c.blue
    → a ≡ c.alpha
    → c.initialized ≡ true
    → ◌≡◌ {A = Bool × Color}
        (true, record { red = r; green = g; blue = b; alpha = a; initialized = true })
        (true, c)
same_color c r g b a hr hg hb ha i =
    rw (hr, hg, hb, ha)
      (ap {B = Bool × Color} (λ (x : Bool). (true, record c { initialized = x })) (sym i))

-- A colour of four bytes that is initialized is printed as a string, and reading that string into any
-- colour succeeds and gives the colour back, opaque or not.
pub color_init_from_string-push_color :
    (c old : Color)
    → IsBytes c
    → c.initialized ≡ true
    → (s : List ℕ) × (push_color c ≡ some s) × (color_init_from_string s old ≡ (true, c))
unfolding push_color
color_init_from_string-push_color c old bytes i = elim (Bool-cases (leb 255 c.alpha)) [
  | inl opaque ↦
      let s = hex_byte c.red ++ (hex_byte c.green ++ (hex_byte c.blue ++ [])) in
      let n = (c.red * 256 + c.green) * 256 + c.blue in
      let size : length s ≡ 6 =
        rw (length-hex_byte c.red, length-hex_byte c.green, length-hex_byte c.blue) refl in
      let read =
        parse-short s old n size
          (strtoul-short c.red c.green c.blue bytes.red bytes.green bytes.blue) in
      (
        35 ∷ s,
        rw (i, opaque) refl,
        init-parse s old _ read
            ∙ same_color c _ _ _ _ (omega (arith, bytes.red, bytes.green, bytes.blue))
                (omega (arith, bytes.red, bytes.green, bytes.blue))
                (omega (arith, bytes.red, bytes.green, bytes.blue)) (ground (arith, bytes.alpha)) i,
      )
  | inr clear ↦
      let s =
        hex_byte c.red ++ (hex_byte c.green ++ (hex_byte c.blue ++ (hex_byte c.alpha ++ []))) in
      let n = ((c.red * 256 + c.green) * 256 + c.blue) * 256 + c.alpha in
      let size : length s ≡ 8 =
        rw
          (
            length-hex_byte c.red,
            length-hex_byte c.green,
            length-hex_byte c.blue,
            length-hex_byte c.alpha,
          )
          refl in
      let read =
        parse-long s old n size (
          strtoul-long c.red c.green c.blue c.alpha bytes.red bytes.green bytes.blue bytes.alpha) in
      (
        35 ∷ s,
        rw (i, clear, append-nil (hex_byte c.alpha)) refl,
        init-parse s old _ read
            ∙ same_color c _ _ _ _ (omega (arith, bytes.red, bytes.green, bytes.blue, bytes.alpha))
                (omega (arith, bytes.red, bytes.green, bytes.blue, bytes.alpha))
                (omega (arith, bytes.red, bytes.green, bytes.blue, bytes.alpha))
                (omega (arith, bytes.red, bytes.green, bytes.blue, bytes.alpha)) i,
      )
]
