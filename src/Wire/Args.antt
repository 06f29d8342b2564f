-- ===== src/Wire/Args.antt =====
-- The arguments of a message: `message_length`, `put_arg_to_message` and
-- `extract_arg_from_message` of src/wayland/Connection.cpp, one constructor for each overload.
pub mod RoundTrip
use coro_wayland.Base.{
  ℕ, ◌+◌, ◌-◌, ◌%◌, ◌^◌, ◌≤◌, ◌<◌, ◌≡◌, refl, List, [], ◌∷◌, ◌++◌, arith, ltb, leb, if◌then◌else◌,
  length, length-append, length-replicate, take, drop, replicate,
}
use coro_wayland.Wire.Bytes.{
  Result, ok, buffer_too_small, no_file_descriptor, undefined, ◌>>=◌, IsU32, store_u32, load_u32,
  pad4, Span, write,
}

-- A string stands without its terminator. An `int32` is the word that holds it.
pub data Arg : Type 0 where
  string array : List ℕ → Arg
  int32 uint32 object file_descriptor : ℕ → Arg

-- The type of the variable that a reader passes in.
pub data Kind : Type 0 where
  a_string an_array an_int32 a_uint32 an_object a_file_descriptor : Kind

unfoldable pub kind : Arg → Kind
kind (string s) = a_string
kind (array a) = an_array
kind (int32 v) = an_int32
kind (uint32 v) = a_uint32
kind (object v) = an_object
kind (file_descriptor fd) = a_file_descriptor

-- The results are of type `std::uint16_t`.
unfoldable pub message_length : Arg → ℕ
message_length (string s) = (4 + pad4 (length s + 1)) % 2 ^ 16
message_length (array a) = (4 + pad4 (length a)) % 2 ^ 16
message_length (int32 v) = 4
message_length (uint32 v) = 4
message_length (object v) = 4
message_length (file_descriptor fd) = 0

unfoldable pub put_word : Span → ℕ → Result Span
put_word s v = if ltb (length s.rest) 4 then buffer_too_small else write s (store_u32 v)

-- `paddedLength - length` in `std::size_t`.
abbrev pub padding : ℕ → ℕ
padding len = (pad4 len + 2 ^ 64 - len) % 2 ^ 64

unfoldable pub put_padding : ℕ → Span → Result Span
put_padding len s = let pad = padding len in if ltb 0 pad then write s (replicate pad 0) else ok s

unfoldable pub put_array : Span → List ℕ → Result Span
put_array s a = if ltb (length s.rest) (4 + length a) then buffer_too_small else (do
  let len = length a % 2 ^ 32
  s1 ← write s (store_u32 len)
  s2 ← write s1 a
  put_padding len s2)

unfoldable pub put_arg_to_message : Span → Arg → Result Span
put_arg_to_message s (string str) = put_array s (str ++ 0 ∷ [])
put_arg_to_message s (array a) = put_array s a
put_arg_to_message s (int32 v) = put_word s v
put_arg_to_message s (uint32 v) = put_word s v
put_arg_to_message s (object v) = put_word s v
put_arg_to_message s (file_descriptor fd) = ok s

-- `span.subspan(n)` and `span.subspan(0, n)`, which want `n <= size()`.
unfoldable pub subspan : List ℕ → ℕ → Result (List ℕ)
subspan b n = if leb n (length b) then ok (drop n b) else undefined

unfoldable pub first : List ℕ → ℕ → Result (List ℕ)
first b n = if leb n (length b) then ok (take n b) else undefined

-- The message as it is left, and the queue `mReceivedFileDescriptors`.
pub record Reader : Type 0 where
  pub buffer : List ℕ
  pub descriptors : List ℕ

-- The body that the string and the array overload share; `count` bytes of the data are kept. The
-- first function is what follows the length.
unfoldable pub extract_data : List ℕ → ℕ → ℕ → Result (List ℕ × List ℕ)
extract_data b len count =
    if ltb (length b) len
    then buffer_too_small
    else (do arg ← first b count; rest ← subspan b (pad4 len); ok (arg, rest))

unfoldable pub extract_array : List ℕ → (ℕ → ℕ) → Result (List ℕ × List ℕ)
extract_array b count =
    if ltb (length b) 4
    then buffer_too_small
    else (do let len = load_u32 b; data_part ← subspan b 4; extract_data data_part len (count len))

-- `length - 1` in `std::uint32_t`.
abbrev pub before_terminator : ℕ → ℕ
before_terminator len = (len + 2 ^ 32 - 1) % 2 ^ 32

unfoldable pub extract_word : List ℕ → Result (ℕ × List ℕ)
extract_word b =
    if ltb (length b) 4 then buffer_too_small else (do b1 ← subspan b 4; ok (load_u32 b, b1))

unfoldable pub read_next_file_descriptor : List ℕ → Result (ℕ × List ℕ)
read_next_file_descriptor [] = no_file_descriptor
read_next_file_descriptor (fd ∷ fds) = ok (fd, fds)

abbrev with_buffer {ℓ} :
    {A : Type ℓ} → Reader → (A → Arg) → Result (A × List ℕ) → Result (Arg × Reader)
with_buffer r f m = do (a, b) ← m; ok (f a, record r { buffer = b })

unfoldable pub extract_arg_from_message : Kind → Reader → Result (Arg × Reader)
extract_arg_from_message a_string r =
    with_buffer r string (extract_array r.buffer before_terminator)
extract_arg_from_message an_array r = with_buffer r array (extract_array r.buffer (λ len. len))
extract_arg_from_message an_int32 r = with_buffer r int32 (extract_word r.buffer)
extract_arg_from_message a_uint32 r = with_buffer r uint32 (extract_word r.buffer)
extract_arg_from_message an_object r = with_buffer r object (extract_word r.buffer)
extract_arg_from_message a_file_descriptor r = do
  (fd, fds) ← read_next_file_descriptor r.descriptors
  ok (file_descriptor fd, record r { descriptors = fds })
