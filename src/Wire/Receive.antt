-- ===== src/Wire/Receive.antt =====
-- `recv_at_least` and `recv_messages` of src/wayland/Connection.cpp: the bytes of the socket are
-- cut into messages, and each goes to the proxy of its object.
pub mod Reads
pub mod Framing
use coro_wayland.Base.{
  ℕ, zero, suc, ◌+◌, ◌-◌, min, Bool, true, false, Option, none, some, List, [], ◌∷◌, ◌++◌, ltb, leb,
  ◌==◌, if◌then◌else◌, length, take, drop,
}
use coro_wayland.Wire.Message.{Header, parse_header}
use coro_wayland.Wire.Proxies.{Proxies, proxy_from_object_id}

-- What one call of `recvmsg` meets: up to `n` bytes of the stream with some descriptors, nothing
-- yet (`EAGAIN`, then a wait in `poll`), or another error. An offer of bytes when the stream is at
-- its end is the end of the file.
pub data Event : Type 0 where
  offer : (n : ℕ) (fds : List ℕ) → Event
  would_block : Event
  failure : Event

pub data End : Type 0 where
  complete : End  -- `recv_at_least` returned
  waiting : End  -- no event is left: the coroutine is suspended in `poll`
  failed : End  -- `std::system_error`
  assertion_failed : End  -- `assert(bytesRead >= kMinMessageSize)`
  undefined : End  -- `std::rotate` past the bytes read
  out_of_fuel : End

abbrev pub min_message_size : ℕ
min_message_size = 8

abbrev pub buffer_size : ℕ
buffer_size = 4096

-- `buffer` holds the bytes read; `stream` is what the peer sends until it closes; `descriptors` is
-- the queue `mReceivedFileDescriptors`.
pub record Link : Type 0 where
  pub buffer : List ℕ
  pub stream : List ℕ
  pub descriptors : List ℕ

-- `recvmsg` into what the buffer has left, with the descriptors of its control messages.
unfoldable pub receive : ℕ → List ℕ → Link → Link
receive n fds l =
    let room = min n (buffer_size - length l.buffer) in
    record {
      buffer = l.buffer ++ take room l.stream;
      stream = drop room l.stream;
      descriptors = l.descriptors ++ fds;
    }

-- `recv_at_least(minBytes, buffer)`, where `total` bytes have been read.
unfoldable pub recv_at_least : ℕ → ℕ → List Event → Link → End × List Event × Link
recv_at_least wanted total [] l = (if leb wanted total then complete else waiting, [], l)
recv_at_least wanted total (e ∷ es) l =
    let step : End × List Event × Link = elim e [
      | offer n fds ↦
          let l' = receive n fds l in
          let got = length l'.buffer - length l.buffer in
          let more = recv_at_least wanted (total + got) es l' in
          if got == 0 then (complete, es, l) else more
      | would_block ↦ recv_at_least wanted total es l
      | failure ↦ (failed, es, l)
    ] in
    if leb wanted total then (complete, e ∷ es, l) else step

-- `co_await recv_at_least(...)`, where fewer than `wanted` bytes are there.
unfoldable pub fill : ℕ → List Event → Link → End × List Event × Link
fill wanted es l =
    if ltb (length l.buffer) wanted
    then recv_at_least (wanted - length l.buffer) 0 es l
    else (complete, es, l)

-- What the loop does with one message: `handle_message` of a proxy, or, with no proxy, a warning.
pub record Delivery : Type 0 where
  pub proxy : Option ℕ
  pub object_id : ℕ
  pub op_code : ℕ
  pub message : List ℕ

-- A handler may register proxies, drop them, and take descriptors.
abbrev pub Handler : Type 0
Handler = Delivery → Proxies × List ℕ → Proxies × List ℕ

unfoldable pub delivery : Proxies → Header → List ℕ → Delivery
delivery m h message = record {
  proxy = proxy_from_object_id h.object_id m;
  object_id = h.object_id;
  op_code = h.op_code;
  message = message;
}

unfoldable pub dispatch : Handler → Delivery → Proxies × List ℕ → Proxies × List ℕ
dispatch handle d s = elim d.proxy [ none ↦ s | some _ ↦ handle d s ]

-- The message at the start of the buffer is handed over, and `std::rotate` drops it.
unfoldable pub process : Handler → Proxies → Header → Link → Delivery × Proxies × Link
process handle m h l =
    let d = delivery m h (take h.message_length l.buffer) in
    let (m', fds) = dispatch handle d (m, l.descriptors) in
    (d, m', record l { buffer = drop h.message_length l.buffer; descriptors = fds })

-- The `while (true)` of `recv_messages`, a message a round, in a build with assertions: with fewer
-- bytes than a header it stops there. A build without them goes on with what is left in the
-- buffer of earlier messages, which this loop is no model of.
unfoldable pub recv_loop : Handler → ℕ → Proxies → List Event → Link → End × List Delivery
recv_loop handle zero m es l = (out_of_fuel, [])
recv_loop handle (suc fuel) m es l =
    let h = parse_header l.buffer in
    let (e1, es1, l1) = fill h.message_length es l in
    let (d, m', l2) = process handle m h l1 in
    let (e3, es3, l3) = fill min_message_size es1 l2 in
    let rest = recv_loop handle fuel m' es3 l3 in
    let next : End × List Delivery = elim e3 [
      | complete ↦ (rest.0, d ∷ rest.1)
      | other ↦ (other, d ∷ [])
    ] in
    let round : End × List Delivery = elim e1 [
      | complete ↦ if ltb (length l1.buffer) h.message_length then (undefined, []) else next
      | other ↦ (other, [])
    ] in
    if ltb (length l.buffer) min_message_size then (assertion_failed, []) else round

unfoldable pub recv_messages : Handler → ℕ → Proxies → List Event → Link → End × List Delivery
recv_messages handle fuel m es l =
    let (e, es', l') = fill min_message_size es l in
    let rest = recv_loop handle fuel m es' l' in elim e [ complete ↦ rest | other ↦ (other, []) ]
