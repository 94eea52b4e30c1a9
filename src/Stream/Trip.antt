-- ===== src/Stream/Trip.antt =====
-- What is written into a stream is read back.
use vcmp_lua.Stream.Reading.{
  read_string-at_rest, u32_of-bytes, read_u32-at_rest, read_byte-at_rest, string_bytes, at_rest,
}
use vcmp_lua.Prelude.{
  append-nil, length-append, subst, sym, ◌∙◌, append_assoc, ◌+◌, ◌-◌, ltb, ap, map, negsuc, not,
  refl, arith, false, guard, ◌%◌, ◌>>◌, [], err, true, ◌++◌, ◌^◌, ok, ◌<◌, ◌>>=◌, ◌∷◌, ◌≡◌, Bool,
  List, Result, length, pos, ℤ, ℕ,
}
use vcmp_lua.Stream.{
  has_room, in_bounds, room, empty_stream, no_room, bad_argument, write_u32, skip, u32_bytes,
  write_string, append, read_string, to_signed32, write_float, read_float, to_unsigned,
  write_number, read_byte, read_number, write_byte, Stream, StreamError,
}

-- What one call writes, or reads.
pub data Item : Type 0 where
  a_byte a_number : ℤ → Item
  a_float : ℕ → Item
  a_string : List ℕ → Item

unfoldable pub write_item : Item → Stream → Result StreamError Stream
unfolding write_byte write_number write_float write_string
write_item (a_byte v) s = write_byte s v
write_item (a_number v) s = write_number s v
write_item (a_float bits) s = write_float s bits
write_item (a_string text) s = write_string s text

abbrev with_item :
    {A : Type 0} → (A → Item) → Result StreamError (Stream × A) → Result StreamError (Stream × Item)
with_item f (ok (s, a)) = ok (s, f a)
with_item f (err e) = err e

-- The read that matches the item.
unfoldable pub read_item : Item → Stream → Result StreamError (Stream × Item)
unfolding read_byte read_number read_float read_string
read_item (a_byte v) s = with_item (λ b. a_byte (pos b)) (read_byte s)
read_item (a_number v) s = with_item a_number (read_number s)
read_item (a_float bits) s = with_item a_float (read_float s)
read_item (a_string text) s = with_item a_string (read_string s)

abbrev pub write_all : List Item → Stream → Result StreamError Stream
write_all [] s = ok s
write_all (x ∷ xs) s = write_item x s >>= write_all xs

abbrev read_then :
    (Stream → Result StreamError (Stream × List Item))
    → Stream × Item
    → Result StreamError (Stream × List Item)
read_then next (s, x) = next s >>= λ r. ok (r.0, x ∷ r.1)

abbrev pub read_all : List Item → Stream → Result StreamError (Stream × List Item)
read_all [] s = ok (s, [])
read_all (x ∷ xs) s = read_item x s >>= read_then (read_all xs)

-- What is read of an item: a byte is read as unsigned, a number as signed.
abbrev pub received : Item → Item
received (a_byte v) = a_byte (pos (to_unsigned 8 v))
received (a_number v) = a_number (to_signed32 (to_unsigned 32 v))
received (a_float bits) = a_float (bits % 2 ^ 32)
received (a_string text) = a_string text

abbrev pub encode : Item → List ℕ
encode (a_byte v) = to_unsigned 8 v ∷ []
encode (a_number v) = u32_bytes (to_unsigned 32 v)
encode (a_float bits) = u32_bytes bits
encode (a_string text) = string_bytes text

abbrev pub encode_all : List Item → List ℕ
encode_all [] = []
encode_all (x ∷ xs) = encode x ++ encode_all xs

-- A string may be too long; every other item Fits.
abbrev Fits : Item → Type 0
Fits (a_string text) = length text < 2 ^ 16
Fits _ = Unit

abbrev AllFit : List Item → Type 0
AllFit [] = Unit
AllFit (x ∷ xs) = Fits x × AllFit xs

-- A write that succeeds appends the encoding.
abbrev Wrote : Item → Stream → Result StreamError Stream → Type 0
Wrote x s (ok s') = (s' ≡ append s (encode x)) × Fits x
Wrote x s (err e) = Unit

Wrote-guard :
    (x : Item) (s : Stream) (b : Bool) (e : StreamError) (r : Result StreamError Stream)
    → (b ≡ true → Wrote x s r)
    → Wrote x s (do guard b e; r)
Wrote-guard x s true e r h = h refl
Wrote-guard x s false e r h = tt

Wrote-if :
    (x : Item) (s : Stream) (b : Bool) (e : StreamError)
    → Fits x
    → Wrote x s (do guard b e; ok (append s (encode x)))
Wrote-if x s b e f = Wrote-guard x s b e (ok (append s (encode x))) (λ _. (refl, f))

short : (text : List ℕ) → not (ltb (2 ^ 16 - 1) (length text)) ≡ true → length text < 2 ^ 16
short text h = ground (arith, h)

write_item-Wrote : (x : Item) (s : Stream) → Wrote x s (write_item x s)
unfolding write_item write_byte write_number write_float write_string write_u32
write_item-Wrote (a_byte v) s =
    Wrote-guard (a_byte v) s (in_bounds (negsuc 127) (pos 255) v) bad_argument
      (do room s 1; ok (append s (encode (a_byte v))))
      (λ _. Wrote-if (a_byte v) s (has_room s 1) no_room tt)
write_item-Wrote (a_number v) s =
    Wrote-guard (a_number v) s (in_bounds (negsuc (2 ^ 31 - 1)) (pos (2 ^ 32 - 1)) v) bad_argument
      (do room s 4; ok (append s (encode (a_number v))))
      (λ _. Wrote-if (a_number v) s (has_room s 4) no_room tt)
write_item-Wrote (a_float bits) s = Wrote-if (a_float bits) s (has_room s 4) no_room tt
write_item-Wrote (a_string text) s =
    Wrote-guard (a_string text) s (not (ltb (2 ^ 16 - 1) (length text))) no_room
      (do room s (2 + length text); ok (append s (string_bytes text)))
      (λ h. Wrote-if (a_string text) s (has_room s (2 + length text)) no_room (short text h))

to_unsigned32_fits : (v : ℤ) → to_unsigned 32 v % 2 ^ 32 ≡ to_unsigned 32 v
to_unsigned32_fits (pos n) = omega arith
to_unsigned32_fits (negsuc n) = omega arith

read_item-at_rest :
    (x : Item) (pre rest : List ℕ)
    → Fits x
    → read_item x (at_rest pre (encode x ++ rest))
      ≡ ok (skip (at_rest pre (encode x ++ rest)) (length (encode x)), received x)
unfolding read_item read_number read_float
read_item-at_rest (a_byte v) pre rest f = rw (read_byte-at_rest pre rest (to_unsigned 8 v)) refl
read_item-at_rest (a_number v) pre rest f =
    rw
      (
        read_u32-at_rest pre (u32_bytes (to_unsigned 32 v) ++ rest) (omega arith),
        u32_of-bytes (to_unsigned 32 v) rest,
      )
      (ap
        (λ u.
          ok
            (skip (at_rest pre (u32_bytes (to_unsigned 32 v) ++ rest)) 4, a_number (to_signed32 u)))
        (to_unsigned32_fits v))
read_item-at_rest (a_float bits) pre rest f =
    rw (read_u32-at_rest pre (u32_bytes bits ++ rest) (omega arith), u32_of-bytes bits rest) refl
read_item-at_rest (a_string text) pre rest f =
    rw (read_string-at_rest pre text rest f)
      (ap (λ n. ok (skip (at_rest pre (string_bytes text ++ rest)) n, a_string text)) (omega arith))

append-append : (s : Stream) (bs cs : List ℕ) → append (append s bs) cs ≡ append s (bs ++ cs)
append-append s bs cs = λ i. record s { bytes = append_assoc s.bytes bs cs i }

write_after :
    (x : Item) (xs : List Item) (s s' : Stream) (r : Result StreamError Stream)
    → ((t : Stream) → write_all xs t ≡ ok s' → (s' ≡ append t (encode_all xs)) × AllFit xs)
    → Wrote x s r
    → (r >>= write_all xs) ≡ ok s'
    → (s' ≡ append s (encode_all (x ∷ xs))) × AllFit (x ∷ xs)
write_after x xs s s' (ok t) later w h =
    let rest = later t h in
    (
      rest.0 ∙ ap (λ u. append u (encode_all xs)) w.0 ∙ append-append s (encode x) (encode_all xs),
      (w.1, rest.1),
    )
write_after x xs s s' (err e) later w h = cc

write_all-Wrote :
    (xs : List Item) (s s' : Stream)
    → write_all xs s ≡ ok s'
    → (s' ≡ append s (encode_all xs)) × AllFit xs
write_all-Wrote [] s s' h =
    let e : s ≡ s' = cc in (sym e ∙ (λ i. record s { bytes = sym (append-nil s.bytes) i }), tt)
write_all-Wrote (x ∷ xs) s s' h =
    write_after x xs s s' (write_item x s) (λ t. write_all-Wrote xs t s') (write_item-Wrote x s) h

abbrev stream_of : List ℕ → ℕ → Stream
stream_of bs n = record { bytes = bs; read = n }

read_all-at_rest :
    (xs : List Item) (pre : List ℕ)
    → AllFit xs
    → read_all xs (at_rest pre (encode_all xs))
      ≡ ok (skip (at_rest pre (encode_all xs)) (length (encode_all xs)), map received xs)
read_all-at_rest [] pre f =
    let same : length pre ≡ length pre + 0 = omega arith in
    ap (λ n. ok (stream_of (pre ++ []) n, [])) same
read_all-at_rest (x ∷ xs) pre f =
    let assoc = append_assoc pre (encode x) (encode_all xs) in
    let here : length pre + length (encode x) ≡ length (pre ++ encode x) =
      omega (arith, length-append pre (encode x)) in
    let there : length (pre ++ encode x) + length (encode_all xs)
        ≡ length pre + length (encode x ++ encode_all xs) =
      omega (arith, length-append pre (encode x), length-append (encode x) (encode_all xs)) in
    let moved : skip (at_rest pre (encode x ++ encode_all xs)) (length (encode x))
        ≡ at_rest (pre ++ encode x) (encode_all xs) =
      λ i. stream_of (sym assoc i) (here i) in
    rw
      (
        read_item-at_rest x pre (encode_all xs) f.0,
        moved,
        read_all-at_rest xs (pre ++ encode x) f.1,
      )
      (λ i. ok (stream_of (assoc i) (there i), received x ∷ map received xs))

-- Bytes, numbers, floats and strings that are all written into an empty stream without an error
-- are read back by the matching calls in the same order, up to the end of the stream: a byte as
-- unsigned, a number as a signed 32-bit one, a float by the low 32 bits given.
pub read_all-write_all :
    (xs : List Item) (s : Stream)
    → write_all xs empty_stream ≡ ok s
    → read_all xs s ≡ ok (record s { read = length s.bytes }, map received xs)
read_all-write_all xs s h =
    let wrote = write_all-Wrote xs empty_stream s h in
    let same : 0 + length (encode_all xs) ≡ length (encode_all xs) = omega arith in
    subst (λ t. read_all xs t ≡ ok (record t { read = length t.bytes }, map received xs))
      (sym wrote.0)
      (read_all-at_rest xs [] wrote.1
        ∙ ap (λ n. ok (stream_of (encode_all xs) n, map received xs)) same)
