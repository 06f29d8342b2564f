-- ===== src/Wire/Args/RoundTrip.antt =====
-- What a reader extracts is what a writer put.
use coro_wayland.Base.{
  ℕ, ◌+◌, ◌-◌, ◌%◌, le→ltb, le→leb, Bool-cases, ltb, inl, inr, ◌^◌, ◌≤◌, ◌<◌, ◌≡◌, refl, ap, ◌∙◌,
  List, [], ◌∷◌, ◌++◌, append_assoc, append-nil, arith, length, length-append, length-replicate,
  length-drop, take, drop, take-append_le, take-append, take-length, drop-append, replicate,
}
use coro_wayland.Wire.Bytes.{
  ok, IsU32, store_u32, load_u32-store_u32, pad4, pad4_bounds, Span, write-fits, advance,
  advance-advance,
}
use coro_wayland.Wire.Args.{
  Arg, string, array, int32, uint32, object, file_descriptor, kind, message_length, put_word,
  put_array, padding, put_padding, put_arg_to_message, subspan, first, extract_data, extract_array,
  extract_word, before_terminator, read_next_file_descriptor, extract_arg_from_message,
}

-- The bytes of the protocol for one argument, written down without the code.
unfoldable pub encode_array : List ℕ → List ℕ
encode_array a = store_u32 (length a) ++ (a ++ replicate (pad4 (length a) - length a) 0)

unfoldable pub encode : Arg → List ℕ
unfolding encode_array
encode (string s) = encode_array (s ++ 0 ∷ [])
encode (array a) = encode_array a
encode (int32 v) = store_u32 v
encode (uint32 v) = store_u32 v
encode (object v) = store_u32 v
encode (file_descriptor fd) = []

-- The descriptors that travel beside the bytes.
unfoldable pub descriptors_of : Arg → List ℕ
descriptors_of (file_descriptor fd) = fd ∷ []
descriptors_of _ = []

-- Words have 32 bits, and the padded length of a text or an array is one.
unfoldable pub IsArg : Arg → Type 0
IsArg (string s) = length s + 4 < 2 ^ 32
IsArg (array a) = length a + 3 < 2 ^ 32
IsArg (int32 v) = IsU32 v
IsArg (uint32 v) = IsU32 v
IsArg (object v) = IsU32 v
IsArg (file_descriptor fd) = Unit {0}

pub length-encode_array :
    (a : List ℕ) → length a + 3 < 2 ^ 32 → length (encode_array a) ≡ 4 + pad4 (length a)
unfolding encode_array
length-encode_array a h = omega (
  arith,
  length-append a (replicate (pad4 (length a) - length a) 0),
  length-replicate {A = ℕ} (pad4 (length a) - length a) 0,
  pad4_bounds (length a) h,
)

pub length-encode : (a : Arg) → IsArg a → length (encode a) % 2 ^ 16 ≡ message_length a
unfolding encode IsArg message_length
length-encode (string s) h =
    ap (λ n. n % 2 ^ 16)
      (length-encode_array (s ++ 0 ∷ []) (omega (arith, length-append s (0 ∷ [])))
        ∙ ap (λ n. 4 + pad4 n) (omega (arith, length-append s (0 ∷ []))))
length-encode (array a) h = ap (λ n. n % 2 ^ 16) (length-encode_array a h)
length-encode (int32 v) h = refl
length-encode (uint32 v) h = refl
length-encode (object v) h = refl
length-encode (file_descriptor fd) h = refl

put_padding-fits :
    (n : ℕ) (s : Span)
    → n + 3 < 2 ^ 32
    → pad4 n - n ≤ length s.rest
    → put_padding n s ≡ ok (advance s (replicate (pad4 n - n) 0))
unfolding put_padding
put_padding-fits n s h fits =
    let e : padding n ≡ pad4 n - n = omega (arith, pad4_bounds n h) in
    rw (e) (elim (Bool-cases (ltb 0 (pad4 n - n))) [
      | inl more ↦ rw more (
          write-fits s (replicate (pad4 n - n) 0)
            (omega (arith, length-replicate {A = ℕ} (pad4 n - n) 0)))
      | inr none_left ↦ let nothing : pad4 n - n ≡ 0 = ground arith in rw (nothing, append-nil)
    ])

put_array-encode :
    (s : Span) (a : List ℕ)
    → length a + 3 < 2 ^ 32
    → length (encode_array a) ≤ length s.rest
    → put_array s a ≡ ok (advance s (encode_array a))
unfolding put_array encode_array
put_array-encode s a h fits =
    let small : length a % 2 ^ 32 ≡ length a = omega arith in
    let total = length-encode_array a h in
    let pads = length-replicate {A = ℕ} (pad4 (length a) - length a) 0 in
    let s1 = advance s (store_u32 (length a)) in
    let s2 = advance s1 a in
    let room1 = length-drop 4 s.rest in
    let room2 = length-drop (length a) (drop 4 s.rest) in
    rw
      (
        le→ltb (length s.rest) (4 + length a) (omega (arith, total, pad4_bounds (length a) h)),
        small,
        write-fits s (store_u32 (length a)) (omega (arith, total)),
        write-fits s1 a (omega (arith, total, room1, pad4_bounds (length a) h)),
        put_padding-fits (length a) s2 h (omega (arith, total, room1, room2)),
      )
      (ap ok (
        advance-advance s1 a (replicate (pad4 (length a) - length a) 0)
        ∙ advance-advance s (store_u32 (length a)) (a ++ replicate (pad4 (length a) - length a) 0)))

pub put_word-encode :
    (s : Span) (v : ℕ) → 4 ≤ length s.rest → put_word s v ≡ ok (advance s (store_u32 v))
unfolding put_word
put_word-encode s v fits = rw (le→ltb (length s.rest) 4 fits) (write-fits s (store_u32 v) fits)

-- Into a span with room for it, an argument is written as its encoding, and no more.
pub put_arg_to_message-encode :
    (s : Span) (a : Arg)
    → IsArg a
    → length (encode a) ≤ length s.rest
    → put_arg_to_message s a ≡ ok (advance s (encode a))
unfolding put_arg_to_message encode IsArg
put_arg_to_message-encode s (string str) h fits =
    put_array-encode s (str ++ 0 ∷ []) (omega (arith, length-append str (0 ∷ []))) fits
put_arg_to_message-encode s (array a) h fits = put_array-encode s a h fits
put_arg_to_message-encode s (int32 v) h fits = put_word-encode s v fits
put_arg_to_message-encode s (uint32 v) h fits = put_word-encode s v fits
put_arg_to_message-encode s (object v) h fits = put_word-encode s v fits
put_arg_to_message-encode s (file_descriptor fd) h fits = rw append-nil

pub subspan-fits : (b : List ℕ) (n : ℕ) → n ≤ length b → subspan b n ≡ ok (drop n b)
unfolding subspan
subspan-fits b n h = rw (le→leb n (length b) h)

first-fits : (b : List ℕ) (n : ℕ) → n ≤ length b → first b n ≡ ok (take n b)
unfolding first
first-fits b n h = rw (le→leb n (length b) h)

extract_word-encode :
    (v : ℕ) (rest : List ℕ) → IsU32 v → extract_word (store_u32 v ++ rest) ≡ ok (v, rest)
unfolding extract_word
extract_word-encode v rest h =
    rw
      (
        le→ltb (length (store_u32 v ++ rest)) 4 (omega arith),
        subspan-fits (store_u32 v ++ rest) 4 (omega arith),
      )
      (ap (λ w. ok (w, rest)) (load_u32-store_u32 v rest h))

extract_data-encode :
    (a pads rest : List ℕ) (count : ℕ)
    → length (a ++ pads) ≡ pad4 (length a)
    → count ≤ length a
    → extract_data ((a ++ pads) ++ rest) (length a) count ≡ ok (take count a, rest)
unfolding extract_data
extract_data-encode a pads rest count e kept =
    let sizes = length-append a pads in
    let all = length-append (a ++ pads) rest in
    let data_part = (a ++ pads) ++ rest in
    rw
      (
        le→ltb (length data_part) (length a) (omega (arith, sizes, all)),
        first-fits data_part count (omega (arith, sizes, all)),
        subspan-fits data_part (pad4 (length a)) (omega (arith, all, e)),
        drop-append (pad4 (length a)) (a ++ pads) rest e,
      )
      (ap (λ l. ok (l, rest))
        (ap (take count) (append_assoc a pads rest) ∙ take-append_le count a (pads ++ rest) kept))

extract_array-encode :
    (a rest : List ℕ) (count : ℕ → ℕ)
    → length a + 3 < 2 ^ 32
    → count (length a) ≤ length a
    → extract_array (encode_array a ++ rest) count ≡ ok (take (count (length a)) a, rest)
unfolding extract_array encode_array
extract_array-encode a rest count h kept =
    let pads : List ℕ = replicate (pad4 (length a) - length a) 0 in
    let whole = store_u32 (length a) ++ ((a ++ pads) ++ rest) in
    rw
      (
        le→ltb (length whole) 4 (omega arith),
        subspan-fits whole 4 (omega arith),
        load_u32-store_u32 (length a) ((a ++ pads) ++ rest) (omega arith),
      )
      (extract_data-encode a pads rest (count (length a))
        (omega (
          arith,
          length-append a pads,
          length-replicate {A = ℕ} (pad4 (length a) - length a) 0,
          pad4_bounds (length a) h,
        ))
        kept)

-- An argument that was encoded is extracted again, with what follows it left in the buffer, and a
-- descriptor is taken from the front of the queue.
pub extract_arg_from_message-encode :
    (a : Arg) (rest fds : List ℕ)
    → IsArg a
    → extract_arg_from_message
        (kind a)
        (record { buffer = encode a ++ rest; descriptors = descriptors_of a ++ fds })
      ≡ ok (a, record { buffer = rest; descriptors = fds })
unfolding extract_arg_from_message kind encode IsArg descriptors_of read_next_file_descriptor
extract_arg_from_message-encode (string s) rest fds h =
    let sizes = length-append s (0 ∷ []) in
    let kept : before_terminator (length (s ++ 0 ∷ [])) ≡ length s = omega (arith, sizes) in
    rw
      (
        extract_array-encode (s ++ 0 ∷ []) rest before_terminator (omega (arith, sizes))
            (omega (arith, sizes)),
        kept,
      )
      (ap (λ l. ok (string l, record { buffer = rest; descriptors = fds }))
        (take-append (length s) s (0 ∷ []) refl))
extract_arg_from_message-encode (array a) rest fds h =
    rw (extract_array-encode a rest (λ len. len) h (omega arith))
      (ap (λ l. ok (array l, record { buffer = rest; descriptors = fds })) (take-length a))
extract_arg_from_message-encode (int32 v) rest fds h = rw (extract_word-encode v rest h)
extract_arg_from_message-encode (uint32 v) rest fds h = rw (extract_word-encode v rest h)
extract_arg_from_message-encode (object v) rest fds h = rw (extract_word-encode v rest h)
extract_arg_from_message-encode (file_descriptor fd) rest fds h = refl
