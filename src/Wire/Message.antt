-- ===== src/Wire/Message.antt =====
-- Whole messages: `Connection::send_message`, `Connection::read_message` of
-- src/wayland/include/wayland/Connection.hpp and the header that `recv_messages` reads.
pub mod RoundTrip
use coro_wayland.Base.{
  ℕ, ◌+◌, ◌-◌, ◌*◌, ◌/◌, ◌%◌, ◌^◌, Option, none, some, List, [], ◌∷◌, ◌++◌, length, drop, replicate,
}
use coro_wayland.Wire.Bytes.{
  Result, ok, buffer_too_small, no_file_descriptor, undefined, ◌>>=◌, load_u32, Span,
}
use coro_wayland.Wire.Args.{
  Arg, file_descriptor, Kind, message_length, put_word, put_arg_to_message, subspan, Reader,
  extract_arg_from_message,
}

-- The fold `messageLength += message_length(args)` in `std::uint16_t`.
unfoldable pub add_lengths : ℕ → List Arg → ℕ
add_lengths acc [] = acc
add_lengths acc (a ∷ args) = add_lengths ((acc + message_length a) % 2 ^ 16) args

unfoldable pub put_args : Span → List Arg → Result Span
put_args s [] = ok s
put_args s (a ∷ args) = do s' ← put_arg_to_message s a; put_args s' args

-- `(set_fd(fd, args), ...)`: the last descriptor among the arguments stays.
unfoldable pub set_fd : Option ℕ → List Arg → Option ℕ
set_fd fd [] = fd
set_fd fd (file_descriptor n ∷ args) = set_fd (some n) args
set_fd fd (_ ∷ args) = set_fd fd args

-- What is handed to `sendmsg`.
pub record Message : Type 0 where
  pub storage : List ℕ
  pub fd : Option ℕ

unfoldable pub length_and_op_code : ℕ → ℕ → ℕ
length_and_op_code len op = len * 2 ^ 16 + op

unfoldable pub send_message : ℕ → ℕ → List Arg → Result Message
send_message object_id op_code args = do
  let len = add_lengths 8 args
  s1 ← put_word (record { before = []; rest = replicate len 0 }) object_id
  s2 ← put_word s1 (length_and_op_code len op_code)
  s3 ← put_args s2 args
  ok (record { storage = s3.before ++ s3.rest; fd = set_fd none args })

unfoldable pub extract_args : Reader → List Kind → Result (List Arg × Reader)
extract_args r [] = ok ([], r)
extract_args r (k ∷ kinds) = do
  (a, r') ← extract_arg_from_message k r
  (args, r'') ← extract_args r' kinds
  ok (a ∷ args, r'')

-- The arguments, the bytes taken, and the descriptors left.
unfoldable pub read_message : List ℕ → List ℕ → List Kind → Result (List Arg × ℕ × List ℕ)
read_message buffer fds kinds = do
  b ← subspan buffer 8
  (args, r) ← extract_args (record { buffer = b; descriptors = fds }) kinds
  ok (args, length buffer - length r.buffer, r.descriptors)

pub record Header : Type 0 where
  pub object_id : ℕ
  pub op_code : ℕ
  pub message_length : ℕ

-- The first eight bytes of the receive buffer.
unfoldable pub parse_header : List ℕ → Header
parse_header buffer =
    let word = load_u32 (drop 4 buffer) in
    record {
      object_id = load_u32 buffer;
      op_code = word % 2 ^ 16;
      message_length = word / 2 ^ 16 % 2 ^ 16;
    }
