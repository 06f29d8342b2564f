-- ===== src/Wire/Message/RoundTrip.antt =====
-- A message that is sent is read again.
use coro_wayland.Base.{
  ℕ, ◌+◌, ◌%◌, ◌^◌, ◌≤◌, ◌<◌, ◌≡◌, refl, ap, ◌∙◌, Option, none, some, List, [], ◌∷◌, ◌++◌, map,
  append_assoc, append-nil, arith, length, length-append, length-replicate, length-drop, drop,
  drop-all, eq-nil_of_length, replicate,
}
use coro_wayland.Wire.Bytes.{ok, IsU32, store_u32, Span, advance, advance-advance}
use coro_wayland.Wire.Args.{Arg, string, file_descriptor, message_length, kind}
use coro_wayland.Wire.Args.RoundTrip.{
  encode, descriptors_of, IsArg, length-encode, put_word-encode, put_arg_to_message-encode,
  subspan-fits, extract_arg_from_message-encode,
}
use coro_wayland.Wire.Message.{
  add_lengths, put_args, set_fd, Message, length_and_op_code, send_message, extract_args,
  read_message, parse_header,
}

unfoldable pub encode_all : List Arg → List ℕ
encode_all [] = []
encode_all (a ∷ args) = encode a ++ encode_all args

unfoldable pub all_descriptors : List Arg → List ℕ
all_descriptors [] = []
all_descriptors (a ∷ args) = descriptors_of a ++ all_descriptors args

unfoldable pub AreArgs : List Arg → Type 0
AreArgs [] = Unit
AreArgs (a ∷ args) = IsArg a × AreArgs args

-- The bytes of the whole message.
unfoldable pub encode_message : ℕ → ℕ → List Arg → List ℕ
unfolding length_and_op_code
encode_message object_id op_code args =
    store_u32 object_id
    ++ (store_u32 (length_and_op_code (8 + length (encode_all args)) op_code) ++ encode_all args)

add_lengths-encode :
    (acc : ℕ) (args : List Arg)
    → AreArgs args
    → acc + length (encode_all args) < 2 ^ 16
    → add_lengths acc args ≡ acc + length (encode_all args)
unfolding add_lengths encode_all AreArgs
add_lengths-encode acc [] h small = omega arith
add_lengths-encode acc (a ∷ args) h small =
    let sizes = length-append (encode a) (encode_all args) in
    let one = length-encode a h.0 in
    let step : (acc + message_length a) % 2 ^ 16 ≡ acc + length (encode a) =
      omega (arith, sizes, one) in
    rw step (
      add_lengths-encode (acc + length (encode a)) args h.1 (omega (arith, sizes))
      ∙ omega (arith, sizes))

put_args-encode :
    (s : Span) (args : List Arg)
    → AreArgs args
    → length (encode_all args) ≤ length s.rest
    → put_args s args ≡ ok (advance s (encode_all args))
unfolding put_args encode_all AreArgs
put_args-encode s [] h fits = rw append-nil
put_args-encode s (a ∷ args) h fits =
    let sizes = length-append (encode a) (encode_all args) in
    rw (put_arg_to_message-encode s a h.0 (omega (arith, sizes))) (
      put_args-encode (advance s (encode a)) args h.1
        (omega (arith, sizes, length-drop (length (encode a)) s.rest))
      ∙ ap ok (advance-advance s (encode a) (encode_all args)))

extract_args-encode :
    (args : List Arg) (rest fds : List ℕ)
    → AreArgs args
    → extract_args
        (record { buffer = encode_all args ++ rest; descriptors = all_descriptors args ++ fds })
        (map kind args)
      ≡ ok (args, record { buffer = rest; descriptors = fds })
unfolding extract_args encode_all all_descriptors AreArgs
extract_args-encode [] rest fds h = refl
extract_args-encode (a ∷ args) rest fds h = rw (
  append_assoc (encode a) (encode_all args) rest,
  append_assoc (descriptors_of a) (all_descriptors args) fds,
  extract_arg_from_message-encode a (encode_all args ++ rest) (all_descriptors args ++ fds) h.0,
  extract_args-encode args rest fds h.1,
)

-- A message of fewer than 2 ^ 16 bytes is sent as its encoding, every byte of its storage written.
pub send_message-encode :
    (object_id op_code : ℕ) (args : List Arg)
    → AreArgs args
    → 8 + length (encode_all args) < 2 ^ 16
    → send_message object_id op_code args
      ≡ ok (record { storage = encode_message object_id op_code args; fd = set_fd none args })
unfolding send_message encode_message
send_message-encode object_id op_code args h small =
    let n = 8 + length (encode_all args) in
    let blank : Span = record { before = []; rest = replicate n 0 } in
    let room = length-replicate {A = ℕ} n 0 in
    let s1 = advance blank (store_u32 object_id) in
    let s2 = advance s1 (store_u32 (length_and_op_code n op_code)) in
    let room1 = length-drop 4 (replicate {A = ℕ} n 0) in
    let room2 = length-drop 4 (drop 4 (replicate {A = ℕ} n 0)) in
    rw (
      add_lengths-encode 8 args h small,
      put_word-encode blank object_id (omega (arith, room)),
      put_word-encode s1 (length_and_op_code n op_code) (omega (arith, room, room1)),
      put_args-encode s2 args h (omega (arith, room, room1, room2)),
      drop-all (length (encode_all args)) (drop 4 (drop 4 (replicate {A = ℕ} n 0)))
          (omega (arith, room, room1, room2)),
      append-nil,
    )

-- The header of a sent message carries the object, the operation and the length of the message.
pub parse_header-encode :
    (object_id op_code : ℕ) (args : List Arg) (rest : List ℕ)
    → IsU32 object_id
    → op_code < 2 ^ 16
    → 8 + length (encode_all args) < 2 ^ 16
    → parse_header (encode_message object_id op_code args ++ rest) ≡ record {
      object_id = object_id;
      op_code = op_code;
      message_length = length (encode_message object_id op_code args);
    }
unfolding parse_header encode_message length_and_op_code
parse_header-encode object_id op_code args rest hid hop small = ground arith

-- The descriptors that the kernel delivers with a message.
unfoldable pub delivered : Option ℕ → List ℕ
delivered none = []
delivered (some fd) = fd ∷ []

set_fd-none_left :
    (fd : Option ℕ) (args : List Arg) → length (all_descriptors args) ≡ 0 → set_fd fd args ≡ fd
unfolding set_fd all_descriptors descriptors_of
set_fd-none_left fd [] e = refl
set_fd-none_left fd (file_descriptor n ∷ args) e = absurd (omega arith)
set_fd-none_left fd (string s ∷ args) e = set_fd-none_left fd args e
set_fd-none_left fd (a ∷ args) e = set_fd-none_left fd args e

delivered-set_fd :
    (args : List Arg)
    → length (all_descriptors args) ≤ 1
    → delivered (set_fd none args) ≡ all_descriptors args
unfolding set_fd all_descriptors descriptors_of delivered
delivered-set_fd [] h = refl
delivered-set_fd (file_descriptor n ∷ args) h = rw (
  set_fd-none_left (some n) args (omega arith),
  eq-nil_of_length (all_descriptors args) (omega arith),
)
delivered-set_fd (string s ∷ args) h = delivered-set_fd args h
delivered-set_fd (a ∷ args) h = delivered-set_fd args h

-- A message with a 32-bit object id, a 16-bit operation, arguments that fit their types, fewer
-- than 2 ^ 16 bytes and at most one descriptor is sent without an error; its header gives back
-- the object, the operation and the length of the storage, and reading it with the descriptor
-- that went along gives back the arguments, takes every byte, and leaves later descriptors.
pub read_message-send_message :
    (object_id op_code : ℕ) (args : List Arg) (fds : List ℕ)
    → IsU32 object_id
    → op_code < 2 ^ 16
    → AreArgs args
    → 8 + length (encode_all args) < 2 ^ 16
    → length (all_descriptors args) ≤ 1
    → (m : Message) × (send_message object_id op_code args ≡ ok m)
      × (parse_header m.storage
          ≡ record { object_id = object_id; op_code = op_code; message_length = length m.storage })
      × (read_message m.storage (delivered m.fd ++ fds) (map kind args)
          ≡ ok (args, length m.storage, fds))
unfolding read_message encode_message
read_message-send_message object_id op_code args fds hid hop h small one =
    let header = parse_header-encode object_id op_code args [] hid hop small in
    (
      record { storage = encode_message object_id op_code args; fd = set_fd none args },
      send_message-encode object_id op_code args h small,
      rw append-nil at header,
      rw
          (
            delivered-set_fd args one,
            subspan-fits (encode_message object_id op_code args) 8 (omega arith),
            ← append-nil (encode_all args),
            extract_args-encode args [] fds h,
          )
          (ap (λ n. ok (args, n, fds)) (omega arith)),
    )
