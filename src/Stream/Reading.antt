-- ===== src/Stream/Reading.antt =====
-- Reading a stream at the place where something was written.
use vcmp_lua.Stream.{
  byte_at, skip, Stream, bytes_from, remaining, u32_bytes, read_byte, read_string, read_u32,
}
use vcmp_lua.Prelude.{
  [], take-append, ◌∙◌, length-append, suc, ap, arith, ok, ◌%◌, ◌*◌, ◌^◌, ◌++◌, ◌+◌, ◌/◌, ◌<◌, ◌≡◌,
  get_or, length, ◌∷◌, ◌≤◌, List, ℕ,
}

-- The stream with the bytes `pre ++ rest`, read up to `rest`.
abbrev pub at_rest : List ℕ → List ℕ → Stream
at_rest pre rest = record { bytes = pre ++ rest; read = length pre }

get_or-after :
    (pre rest : List ℕ) (i : ℕ) → get_or (pre ++ rest) (length pre + i) 0 ≡ get_or rest i 0
get_or-after [] rest i = ap (λ j. get_or rest j 0) (omega arith)
get_or-after (b ∷ pre) rest i =
    let e : suc (length pre) + i ≡ suc (length pre + i) = omega arith in
    ap (λ j. get_or (b ∷ pre ++ rest) j 0) e ∙ get_or-after pre rest i

bytes_from-after :
    (pre rest : List ℕ) (i n : ℕ)
    → bytes_from (length pre + i) n (pre ++ rest) ≡ bytes_from i n rest
bytes_from-after [] rest i n = ap (λ j. bytes_from j n rest) (omega arith)
bytes_from-after (b ∷ pre) rest i n =
    let e : suc (length pre) + i ≡ suc (length pre + i) = omega arith in
    ap (λ j. bytes_from j n (b ∷ pre ++ rest)) e ∙ bytes_from-after pre rest i n

remaining-at_rest : (pre rest : List ℕ) → remaining (at_rest pre rest) ≡ length rest
remaining-at_rest pre rest = omega (arith, length-append pre rest)

-- The number that the first four bytes make.
abbrev pub u32_of : List ℕ → ℕ
u32_of bs = get_or bs 0 0 + get_or bs 1 0 * 2 ^ 8 + get_or bs 2 0 * 2 ^ 16 + get_or bs 3 0 * 2 ^ 24

pub u32_of-bytes : (v : ℕ) (rest : List ℕ) → u32_of (u32_bytes v ++ rest) ≡ v % 2 ^ 32
u32_of-bytes v rest = omega arith

pub read_byte-at_rest :
    (pre rest : List ℕ) (b : ℕ)
    → read_byte (at_rest pre (b ∷ rest)) ≡ ok (skip (at_rest pre (b ∷ rest)) 1, b)
unfolding read_byte
read_byte-at_rest pre rest b =
    ground (arith, remaining-at_rest pre (b ∷ rest), get_or-after pre (b ∷ rest) 0)

pub read_u32-at_rest :
    (pre rest : List ℕ)
    → 4 ≤ length rest
    → read_u32 (at_rest pre rest) ≡ ok (skip (at_rest pre rest) 4, u32_of rest)
unfolding read_u32
read_u32-at_rest pre rest h = ground (
  arith,
  remaining-at_rest pre rest,
  get_or-after pre rest 0,
  get_or-after pre rest 1,
  get_or-after pre rest 2,
  get_or-after pre rest 3,
)

abbrev pub string_bytes : List ℕ → List ℕ
string_bytes text = length text / 2 ^ 8 % 256 ∷ length text % 256 ∷ text

pub read_string-at_rest :
    (pre text rest : List ℕ)
    → length text < 2 ^ 16
    → read_string (at_rest pre (string_bytes text ++ rest))
      ≡ ok (skip (at_rest pre (string_bytes text ++ rest)) (2 + length text), text)
unfolding read_string
read_string-at_rest pre text rest h =
    let all = string_bytes text ++ rest in
    let size : byte_at (at_rest pre all) 0 * 2 ^ 8 + byte_at (at_rest pre all) 1 ≡ length text =
      omega (arith, get_or-after pre all 0, get_or-after pre all 1) in
    let long : remaining (at_rest pre all) ≡ 2 + length text + length rest =
      omega (arith, remaining-at_rest pre all, length-append text rest) in
    ground (arith, size, long, bytes_from-after pre all 2 (length text), take-append text rest)
