-- ===== src/Stream.antt =====
-- src/bindings/stream.hpp and stream.cpp: what scripts write into a Stream and read from one.
-- A byte is a number below 256; a float is the number that its four bytes make. The conversion of
-- the arguments is not modelled, but for the range of the integers.
pub mod Reading
pub mod Trip
use vcmp_lua.Prelude.{
  zero, ◌&&◌, ◌/◌, ◌||◌, err, leb_ℤ, ltb, negsuc, not, suc, ◌*◌, ◌^◌, ◌∷◌, Bool, guard,
  if◌then◌else◌, ok, pos, take, ◌%◌, ◌++◌, ◌-◌, ◌>>◌, List, Result, [], get_or, length, ℤ, ◌+◌, ℕ,
}

pub record Stream : Type 0 where
  pub bytes : List ℕ
  pub read : ℕ

abbrev pub max_size : ℕ
max_size = 4096

abbrev pub empty_stream : Stream
empty_stream = record { bytes = []; read = 0 }

-- std::out_of_range, std::length_error, and the error of an argument out of its range.
pub data StreamError : Type 0 where
  not_enough no_room bad_argument : StreamError

abbrev pub remaining : Stream → ℕ
remaining s = length s.bytes - s.read

-- `Need` and `Room`.
abbrev pub need : Stream → ℕ → Result StreamError (Unit {0})
need s size = guard (not (ltb (remaining s) size)) not_enough

abbrev pub has_room : Stream → ℕ → Bool
has_room s size = not (ltb max_size (length s.bytes) || ltb (max_size - length s.bytes) size)

abbrev pub room : Stream → ℕ → Result StreamError (Unit {0})
room s size = guard (has_room s size) no_room

abbrev pub byte_at : Stream → ℕ → ℕ
byte_at s i = get_or s.bytes (s.read + i) 0

abbrev pub skip : Stream → ℕ → Stream
skip s n = record s { read = s.read + n }

abbrev pub append : Stream → List ℕ → Stream
append s bs = record s { bytes = s.bytes ++ bs }

-- `static_cast` of an integer to a `w`-bit unsigned one, and of 32 bits to a signed one.
abbrev pub to_unsigned : ℕ → ℤ → ℕ
to_unsigned w (pos n) = n % 2 ^ w
to_unsigned w (negsuc n) = 2 ^ w - 1 - n % 2 ^ w

abbrev pub to_signed32 : ℕ → ℤ
to_signed32 n = if ltb n (2 ^ 31) then pos n else negsuc (2 ^ 32 - n - 1)

-- `ReadU32`: four bytes, the lowest first.
unfoldable pub read_u32 : Stream → Result StreamError (Stream × ℕ)
read_u32 s = do
  need s 4
  ok (skip s 4, byte_at s 0 + byte_at s 1 * 2 ^ 8 + byte_at s 2 * 2 ^ 16 + byte_at s 3 * 2 ^ 24)

abbrev pub u32_bytes : ℕ → List ℕ
u32_bytes v = v % 256 ∷ v / 2 ^ 8 % 256 ∷ v / 2 ^ 16 % 256 ∷ v / 2 ^ 24 % 256 ∷ []

unfoldable pub write_u32 : Stream → ℕ → Result StreamError Stream
write_u32 s v = do room s 4; ok (append s (u32_bytes v))

unfoldable pub read_byte : Stream → Result StreamError (Stream × ℕ)
read_byte s = do need s 1; ok (skip s 1, byte_at s 0)

abbrev as_number : Result StreamError (Stream × ℕ) → Result StreamError (Stream × ℤ)
as_number (ok (s, v)) = ok (s, to_signed32 v)
as_number (err e) = err e

unfoldable pub read_number : Stream → Result StreamError (Stream × ℤ)
unfolding read_u32
read_number s = as_number (read_u32 s)

-- The bits of the float.
unfoldable pub read_float : Stream → Result StreamError (Stream × ℕ)
unfolding read_u32
read_float s = read_u32 s

-- `std::string(data + read, length)`.
abbrev pub bytes_from : ℕ → ℕ → List ℕ → List ℕ
bytes_from zero n bs = take n bs
bytes_from (suc i) n [] = []
bytes_from (suc i) n (b ∷ bs) = bytes_from i n bs

unfoldable pub read_string : Stream → Result StreamError (Stream × List ℕ)
read_string s = do
  need s 2
  let size = byte_at s 0 * 2 ^ 8 + byte_at s 1 in
      do
        guard (not (ltb (remaining s - 2) size)) not_enough
        ok (skip s (2 + size), bytes_from (s.read + 2) size s.bytes)

abbrev pub in_bounds : ℤ → ℤ → ℤ → Bool
in_bounds low high v = leb_ℤ low v && leb_ℤ v high

unfoldable pub write_byte : Stream → ℤ → Result StreamError Stream
write_byte s v = do
  guard (in_bounds (negsuc 127) (pos 255) v) bad_argument
  room s 1
  ok (append s (to_unsigned 8 v ∷ []))

unfoldable pub write_number : Stream → ℤ → Result StreamError Stream
unfolding write_u32
write_number s v = do
  guard (in_bounds (negsuc (2 ^ 31 - 1)) (pos (2 ^ 32 - 1)) v) bad_argument
  write_u32 s (to_unsigned 32 v)

unfoldable pub write_float : Stream → ℕ → Result StreamError Stream
unfolding write_u32
write_float s bits = write_u32 s bits

unfoldable pub write_string : Stream → List ℕ → Result StreamError Stream
write_string s text = do
  guard (not (ltb (2 ^ 16 - 1) (length text))) no_room
  room s (2 + length text)
  ok (append s (length text / 2 ^ 8 % 256 ∷ length text % 256 ∷ text))

unfoldable pub clear_stream : Stream → Stream
clear_stream s = empty_stream
