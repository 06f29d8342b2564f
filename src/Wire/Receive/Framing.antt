-- ===== src/Wire/Receive/Framing.antt =====
-- However the socket cuts the stream, the loop delivers whole messages in the order of the stream.
use coro_wayland.Base.{
  ℕ, zero, suc, ◌≤◌, ◌<◌, ◌≡◌, refl, sym, ap, ◌∙◌, ◌⊎◌, inl, inr, List, [], ◌∷◌, ◌++◌, map, arith,
  le→ltb, lt→ltb, All, length, length-append, take, drop, drop-append_le, take-append_le,
  take-append, drop-append, length-drop,
}
use coro_wayland.Wire.Message.{Header, parse_header}
use coro_wayland.Wire.Proxies.{Proxies}
use coro_wayland.Wire.Receive.{
  Event, End, complete, waiting, assertion_failed, buffer_size, min_message_size, Link, fill,
  Delivery, Handler, delivery, process, recv_loop, recv_messages,
}
use coro_wayland.Wire.Receive.Reads.{flatten, IsCalm, IsFrame, Received, fill-Received}

parse_header-append :
    (m rest : List ℕ) → min_message_size ≤ length m → parse_header (m ++ rest) ≡ parse_header m
unfolding parse_header
parse_header-append (a ∷ b ∷ c ∷ d ∷ e ∷ f ∷ g ∷ h ∷ m) rest few = refl
parse_header-append m rest few = absurd (omega arith)

-- The object and the operation of a delivery are those of its message.
abbrev pub IsTrue : Delivery → Type 0
IsTrue d =
    (d.object_id ≡ (parse_header d.message).object_id)
    × (d.op_code ≡ (parse_header d.message).op_code)

-- What a run over the stream of `frames` has done when it stops.
pub record Framed (frames : List (List ℕ)) (r : End × List Delivery) : Type 0 where
  pub left : List (List ℕ)
  pub in_order : map (λ d. d.message) r.1 ++ left ≡ frames
  pub headers : All IsTrue r.1
  pub ended : (r.0 ≡ waiting) ⊎ ((r.0 ≡ assertion_failed) × (left ≡ []))

waiting-Framed : (frames : List (List ℕ)) → Framed frames (waiting, [])
waiting-Framed frames = record { left = frames; in_order = refl; headers = tt; ended = inl refl }

cons-Framed :
    (frame : List ℕ) (frames : List (List ℕ)) (d : Delivery) (r : End × List Delivery)
    → d.message ≡ frame
    → IsTrue d
    → Framed frames r
    → Framed (frame ∷ frames) (r.0, d ∷ r.1)
cons-Framed frame frames d r e h v = record {
  left = v.left;
  in_order = ground (arith, v.in_order, e);
  headers = (h, v.headers);
  ended = v.ended;
}

-- After a wait for no more bytes than a frame has, at the start of the frame, the frame is there.
Received-enough :
    (frame rest : List ℕ) (wanted : ℕ) (r : End × List Event × Link)
    → Received (frame ++ rest) wanted r
    → r.0 ≡ complete
    → wanted ≤ length frame
    → length frame ≤ buffer_size
    → wanted ≤ length r.2.buffer
Received-enough frame rest wanted r v done few fits =
    let sizes = length-append frame rest in
    let same_size = length-append r.2.buffer r.2.stream in
    let size = ap length v.same in
    elim v.ended [
      | inl w ↦ cc
      | inr (_, inl there) ↦ there
      | inr (_, inr (inl finished)) ↦ omega (arith, sizes, same_size, size, ap length finished)
      | inr (_, inr (inr full)) ↦ omega arith
    ]

Received-begun :
    (frames : List (List ℕ)) (r : End × List Event × Link)
    → All IsFrame frames
    → Received (flatten frames) min_message_size r
    → r.0 ≡ complete
    → (frames ≡ []) ⊎ (min_message_size ≤ length r.2.buffer)
unfolding flatten
Received-begun [] r good v done = inl refl
Received-begun (f ∷ fs) r good v done =
    inr (Received-enough f (flatten fs) min_message_size r v done good.0.header good.0.fits)

-- The message at the start of the buffer is the first frame, and the rest starts at the next.
process-frame :
    (handle : Handler) (m : Proxies) (h : Header) (l : Link) (frame rest : List ℕ)
    → l.buffer ++ l.stream ≡ frame ++ rest
    → h ≡ parse_header frame
    → h.message_length ≡ length frame
    → length frame ≤ length l.buffer
    → let (d, _, l') = process handle m h l in
      (d.message ≡ frame)
      × IsTrue d
      × (l'.buffer ++ l'.stream ≡ rest)
      × (length l'.buffer ≤ length l.buffer)
unfolding process delivery
process-frame handle m h l frame rest same header told there =
    let cut : take h.message_length l.buffer ≡ frame = rw told (
      sym (take-append_le (length frame) l.buffer l.stream there)
      ∙ ap (take (length frame)) same
      ∙ take-append (length frame) frame rest refl) in
    (
      cut,
      rw (cut, header) (refl, refl),
      rw told (
          sym (drop-append_le (length frame) l.buffer l.stream there)
          ∙ ap (drop (length frame)) same
          ∙ drop-append (length frame) frame rest refl),
      omega (arith, length-drop h.message_length l.buffer),
    )

module _ (handle : Handler) where
  recv_loop-Framed :
      (fuel : ℕ) (frames : List (List ℕ)) (m : Proxies) (es : List Event) (l : Link)
      → length frames < fuel
      → All IsFrame frames
      → All IsCalm es
      → l.buffer ++ l.stream ≡ flatten frames
      → length l.buffer ≤ buffer_size
      → (frames ≡ []) ⊎ (min_message_size ≤ length l.buffer)
      → Framed frames (recv_loop handle fuel m es l)
  unfolding recv_loop flatten
  recv_loop-Framed zero frames m es l enough good calm same within begun = absurd (omega arith)
  recv_loop-Framed (suc fuel) [] m es l enough good calm same within begun =
      let none_left : length l.buffer ≡ 0 =
        omega (arith, ap length same, length-append l.buffer l.stream) in
      rw (lt→ltb (length l.buffer) min_message_size (omega arith))
        (record { left = []; in_order = refl; headers = tt; ended = inr (refl, refl) })
  recv_loop-Framed (suc fuel) (f ∷ fs) m es l enough good calm same within begun =
      let there : min_message_size ≤ length l.buffer = elim begun [
        | inl e ↦ absurd (cc e)
        | inr h ↦ h
      ] in
      let frame = good.0 in
      let header : parse_header l.buffer ≡ parse_header f =
        sym (parse_header-append l.buffer l.stream there)
        ∙ ap parse_header same
        ∙ parse_header-append f (flatten fs) frame.header in
      let told : (parse_header l.buffer).message_length ≡ length f =
        ap (λ h. h.message_length) header ∙ frame.told in
      let h = parse_header l.buffer in
      let r1 = fill h.message_length es l in
      let v1 : Received (f ++ flatten fs) h.message_length r1 =
        rw same at (fill-Received h.message_length es l calm within) in
      rw (le→ltb (length l.buffer) min_message_size there) (elim v1.ended [
        | inl w ↦ rw w (waiting-Framed (f ∷ fs))
        | inr (c, _) ↦
            let all_there =
              Received-enough f (flatten fs) h.message_length r1 v1 c (omega (arith, told))
                frame.fits in
            let p = process handle m h r1.2 in
            let cut =
              process-frame handle m h r1.2 f (flatten fs) v1.same header told
                (omega (arith, told)) in
            let r3 = fill min_message_size r1.1 p.2 in
            let v3 : Received (flatten fs) min_message_size r3 =
              rw cut.2 at (
                fill-Received min_message_size r1.1 p.2 v1.calm
                  (omega (arith, cut.3, v1.within))) in
            rw (c, le→ltb (length r1.2.buffer) h.message_length all_there)
              (elim v3.ended [
                | inl w3 ↦
                    rw w3 (cons-Framed f fs p.0 (waiting, []) cut.0 cut.1 (waiting-Framed fs))
                | inr (c3, _) ↦ rw c3 (
                    cons-Framed f fs p.0 _ cut.0 cut.1 (
                      recv_loop-Framed fuel fs p.1 r3.1 r3.2 (omega arith) good.1 v3.calm v3.same
                        v3.within (Received-begun fs r3 good.1 v3 c3)))
              ])
      ])

-- In a build with assertions, whatever the handlers do and however a socket without errors cuts the
-- stream of whole messages of 8 to 4096 bytes into reads, the loop, with fuel above their number,
-- hands over the messages in the order of the stream, each once and whole, with the object and the
-- operation of its header. It stops in one of two ways: it waits for more bytes; or it has met the
-- end of the stream and handed over all messages, and then its assertion on the number of bytes
-- fails. Builds without assertions, which go on there, are not covered.
pub recv_messages-Framed :
    (handle : Handler) (fuel : ℕ) (frames : List (List ℕ)) (m : Proxies) (es : List Event)
    (fds : List ℕ)
    → length frames < fuel
    → All IsFrame frames
    → All IsCalm es
    → Framed frames (
        recv_messages handle fuel m es
          (record { buffer = []; stream = flatten frames; descriptors = fds }))
unfolding recv_messages
recv_messages-Framed handle fuel frames m es fds enough good calm =
    let l : Link = record { buffer = []; stream = flatten frames; descriptors = fds } in
    let r = fill min_message_size es l in
    let v = fill-Received min_message_size es l calm (omega arith) in
    elim v.ended [
      | inl w ↦ rw (w, recv_messages) (waiting-Framed frames)
      | inr (c, _) ↦
          rw (c, recv_messages)
            (recv_loop-Framed handle fuel frames m r.1 r.2 enough good v.calm v.same v.within
              (Received-begun frames r good v c))
    ]
