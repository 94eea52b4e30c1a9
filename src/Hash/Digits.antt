-- ===== src/Hash/Digits.antt =====
-- src/modules/hash.cpp, Hex: a reader of its digits gives the bytes back.
use vcmp_lua.Prelude.{
  all_from-Within, eq_of_==, ◌%◌, Within, ap, arith, ◌/◌, refl, ◌-◌, [], none, ◌&&◌, ◌+◌, ◌==◌,
  false, leb, ltb, true, ◌*◌, ◌∷◌, Bool, if◌then◌else◌, some, ◌<◌, ◌≡◌, List, Option, ℕ,
}
use vcmp_lua.Hash.{hex, hex_digit}

-- A reader of the hex text of bytes: two digits for each, 0-9 and a-f.
unfoldable digit_value : ℕ → Option ℕ
digit_value c =
    if leb 48 c && leb c 57
    then some (c - 48)
    else if leb 97 c && leb c 102
    then some (c - 87)
    else none

abbrev byte_of : Option ℕ → Option ℕ → Option ℕ
byte_of (some h) (some l) = some (16 * h + l)
byte_of _ _ = none

abbrev cons_byte : Option ℕ → Option (List ℕ) → Option (List ℕ)
cons_byte (some b) (some bs) = some (b ∷ bs)
cons_byte _ _ = none

unfoldable pub unhex : List ℕ → Option (List ℕ)
unfolding digit_value
unhex [] = some []
unhex (c ∷ []) = none
unhex (c ∷ d ∷ cs) = cons_byte (byte_of (digit_value c) (digit_value d)) (unhex cs)

abbrev is_byte : ℕ → Bool
is_byte b = ltb b 256

abbrev pub are_bytes : List ℕ → Bool
are_bytes [] = true
are_bytes (b ∷ bs) = is_byte b && are_bytes bs

abbrev is_digit_of : ℕ → Option ℕ → Bool
is_digit_of n none = false
is_digit_of n (some m) = m == n

of_is_digit_of : (n : ℕ) (o : Option ℕ) → is_digit_of n o ≡ true → o ≡ some n
of_is_digit_of n none h = cc
of_is_digit_of n (some m) h = ap some (eq_of_== m n h)

digit_test : ℕ → Bool
unfolding digit_value hex_digit
digit_test n = is_digit_of n (digit_value (hex_digit n))

all-digit_test : Within digit_test 0 16
unfolding digit_test
all-digit_test = all_from-Within digit_test 16 0 refl

digit_value-hex_digit : (n : ℕ) → n < 16 → digit_value (hex_digit n) ≡ some n
unfolding digit_test
digit_value-hex_digit n h =
    of_is_digit_of n (digit_value (hex_digit n)) (all-digit_test n (omega arith) h)

digits_of : (b : ℕ) → 16 * (b / 16) + b % 16 ≡ b
digits_of b = omega arith

high_digit : (b : ℕ) → is_byte b ≡ true → b / 16 < 16
high_digit b h = ground arith

both : (b c : Bool) → (b && c) ≡ true → (b ≡ true) × (c ≡ true)
both b c h = (grind arith, grind arith)

byte_of-digits :
    (b : ℕ)
    → is_byte b ≡ true
    → byte_of (digit_value (hex_digit (b / 16))) (digit_value (hex_digit (b % 16))) ≡ some b
byte_of-digits b h = rw (
  digit_value-hex_digit (b / 16) (high_digit b h),
  digit_value-hex_digit (b % 16) (omega arith),
  digits_of b,
)

-- A reader of pairs of the digits 0-9 and a-f takes the text that Hex gives for a list of bytes,
-- that is of numbers below 256, back to these bytes.
pub unhex-hex : (bs : List ℕ) → are_bytes bs ≡ true → unhex (hex bs) ≡ some bs
unfolding hex unhex
unhex-hex [] h = refl
unhex-hex (b ∷ bs) h =
    let (p, q) = both (is_byte b) (are_bytes bs) h in rw (byte_of-digits b p, unhex-hex bs q)
