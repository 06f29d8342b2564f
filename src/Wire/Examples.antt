-- ===== src/Wire/Examples.antt =====
-- Runs of the wire format, and its theorems at concrete inputs.
use coro_wayland.Base.{
  ℕ, ◌≡◌, refl, some, List, [], ◌∷◌, ◌++◌, map, All, length, arith, if◌then◌else◌, ◌==◌, Option,
}
use coro_wayland.Wire.Bytes.{ok, undefined, Span, advance, pad4}
use coro_wayland.Wire.Args.{
  Arg, string, uint32, file_descriptor, a_string, kind, put_arg_to_message, subspan, first,
  extract_data, extract_array, extract_arg_from_message,
}
use coro_wayland.Wire.Args.RoundTrip.{
  encode, descriptors_of, IsArg, put_arg_to_message-encode, extract_arg_from_message-encode,
}
use coro_wayland.Wire.Message.{Message, send_message, read_message, parse_header}
use coro_wayland.Wire.Message.RoundTrip.{
  encode_all, all_descriptors, delivered, AreArgs, read_message-send_message,
}
use coro_wayland.Wire.Proxies.{
  register_interface, proxy_from_object_id, proxy_from_object_id-register_interface,
}
use coro_wayland.Wire.Receive.{
  Event, offer, would_block, Handler, recv_messages, recv_loop, fill, recv_at_least, receive,
  process, delivery, dispatch,
}
use coro_wayland.Wire.Receive.Reads.{flatten, IsFrame}
use coro_wayland.Wire.Receive.Framing.{Framed, recv_messages-Framed}

-- "hi", a descriptor and a number, to operation 3 of object 7.
abbrev greeting : List Arg
greeting = string (104 ∷ 105 ∷ []) ∷ file_descriptor 9 ∷ uint32 500 ∷ []

abbrev room : Span
room = record { before = 1 ∷ []; rest = 9 ∷ 9 ∷ 9 ∷ 9 ∷ 9 ∷ 9 ∷ 9 ∷ 9 ∷ 9 ∷ [] }

put_arg_to_message-encode_example :
    put_arg_to_message room (string (104 ∷ 105 ∷ []))
    ≡ ok (advance room (encode (string (104 ∷ 105 ∷ []))))
unfolding IsArg encode pad4
put_arg_to_message-encode_example =
    put_arg_to_message-encode room (string (104 ∷ 105 ∷ [])) (omega arith) (omega arith)

extract_arg_from_message-encode_example :
    extract_arg_from_message (kind (string (104 ∷ 105 ∷ []))) (record {
      buffer = encode (string (104 ∷ 105 ∷ [])) ++ (1 ∷ []);
      descriptors = descriptors_of (string (104 ∷ 105 ∷ [])) ++ (5 ∷ []);
    })
    ≡ ok (string (104 ∷ 105 ∷ []), record { buffer = 1 ∷ []; descriptors = 5 ∷ [] })
unfolding IsArg
extract_arg_from_message-encode_example =
    extract_arg_from_message-encode (string (104 ∷ 105 ∷ [])) (1 ∷ []) (5 ∷ []) (omega arith)

read_message-send_message_example :
    (m : Message) × (send_message 7 3 greeting ≡ ok m)
    × (parse_header m.storage
        ≡ record { object_id = 7; op_code = 3; message_length = length m.storage })
    × (read_message m.storage (delivered m.fd ++ (4 ∷ [])) (map kind greeting)
        ≡ ok (greeting, length m.storage, 4 ∷ []))
unfolding AreArgs IsArg encode_all encode all_descriptors descriptors_of pad4
read_message-send_message_example =
    read_message-send_message 7 3 greeting (4 ∷ []) (omega arith) (omega arith) (omega arith)
      (omega arith) (omega arith)

proxy_from_object_id-register_interface_example :
    proxy_from_object_id 3 (register_interface 3 11 ((2, some 8) ∷ []))
    ≡ (if 3 == 3 then some 11 else proxy_from_object_id 3 ((2, some 8) ∷ []))
proxy_from_object_id-register_interface_example =
    proxy_from_object_id-register_interface 3 3 11 ((2, some 8) ∷ [])

-- Two messages with no arguments, to operations 3 and 5 of object 1.
abbrev two_frames : List (List ℕ)
two_frames = (1 ∷ 0 ∷ 0 ∷ 0 ∷ 3 ∷ 0 ∷ 8 ∷ 0 ∷ []) ∷ (1 ∷ 0 ∷ 0 ∷ 0 ∷ 5 ∷ 0 ∷ 8 ∷ 0 ∷ []) ∷ []

abbrev cuts : List Event
cuts = offer 3 [] ∷ would_block ∷ offer 6 (4 ∷ []) ∷ offer 100 [] ∷ offer 1 [] ∷ []

abbrev idle_handler : Handler
idle_handler _ s = s

two_frames-IsFrame : All IsFrame two_frames
unfolding parse_header
two_frames-IsFrame = omega arith

recv_messages-Framed_example : Framed two_frames (
    recv_messages idle_handler 3
      ((1, some 6) ∷ [])
      cuts
      (record { buffer = []; stream = flatten two_frames; descriptors = [] }))
recv_messages-Framed_example =
    recv_messages-Framed idle_handler 3 two_frames ((1, some 6) ∷ []) cuts [] (omega arith)
      two_frames-IsFrame (omega arith)

-- Both messages arrive, then the stream ends.
two_frames_run :
    map {B = Option ℕ × ℕ}
      (λ d. (d.proxy, d.op_code))
      (recv_messages idle_handler 3
        ((1, some 6) ∷ [])
        cuts
        (record { buffer = []; stream = flatten two_frames; descriptors = [] })).1
    ≡ (some 6, 3) ∷ (some 6, 5) ∷ []
unfolding recv_messages recv_loop fill recv_at_least receive process delivery dispatch parse_header
    flatten proxy_from_object_id
two_frames_run = refl

-- A string whose length word is 0, as the protocol writes a null string.
null_string_undefined :
    extract_arg_from_message a_string (record { buffer = 0 ∷ 0 ∷ 0 ∷ 0 ∷ []; descriptors = [] })
    ≡ undefined
unfolding extract_arg_from_message extract_array extract_data subspan first
null_string_undefined = refl
