-- ===== src/Wire/Receive/Reads.antt =====
-- Reading until enough bytes are there, whatever each read returns.
use coro_wayland.Base.{
  ℕ, ◌+◌, ◌-◌, ◌≤◌, ◌<◌, min, ◌≡◌, refl, ap, ◌∙◌, ◌⊎◌, inl, inr, List, [], ◌∷◌, ◌++◌, append_assoc,
  arith, ltb, leb, ◌==◌, leb→le, ltb→lt, ==_iff, eq-nil_of_length, Bool-cases, All, length,
  length-append, length-take, take, drop, take-append-drop,
}
use coro_wayland.Wire.Message.{parse_header}
use coro_wayland.Wire.Receive.{
  Event, offer, would_block, failure, End, complete, waiting, buffer_size, min_message_size, Link,
  receive, recv_at_least, fill,
}

-- The stream of the messages.
unfoldable pub flatten : List (List ℕ) → List ℕ
flatten [] = []
flatten (m ∷ ms) = m ++ flatten ms

-- No error of the socket, and an offer offers something.
abbrev pub IsCalm : Event → Type 0
IsCalm (offer n fds) = 0 < n
IsCalm would_block = Unit
IsCalm failure = ⊥

-- A message that fits the buffer, and whose header tells its length.
pub record IsFrame (m : List ℕ) : Type 0 where
  pub header : min_message_size ≤ length m
  pub fits : length m ≤ buffer_size
  pub told : (parse_header m).message_length ≡ length m

-- What a wait for bytes may end in: the bytes are kept in order and within the buffer; if it
-- completes, then with the bytes that were wanted, at the end of the stream or with a full buffer.
pub record Received (bytes : List ℕ) (wanted : ℕ) (r : End × List Event × Link) : Type 0 where
  pub same : r.2.buffer ++ r.2.stream ≡ bytes
  pub within : length r.2.buffer ≤ buffer_size
  pub calm : All IsCalm r.1
  pub ended :
      (r.0 ≡ waiting)
      ⊎ ((r.0 ≡ complete)
          × ((wanted ≤ length r.2.buffer)
              ⊎ ((r.2.stream ≡ []) ⊎ (length r.2.buffer ≡ buffer_size))))

pub same-receive :
    (n : ℕ) (fds : List ℕ) (l : Link)
    → (receive n fds l).buffer ++ (receive n fds l).stream ≡ l.buffer ++ l.stream
unfolding receive
same-receive n fds l =
    append_assoc l.buffer (take (min n (buffer_size - length l.buffer)) l.stream)
      (drop (min n (buffer_size - length l.buffer)) l.stream)
    ∙ ap (◌++◌ l.buffer) (take-append-drop (min n (buffer_size - length l.buffer)) l.stream)

pub length-receive :
    (n : ℕ) (fds : List ℕ) (l : Link)
    → length (receive n fds l).buffer
      ≡ length l.buffer + min (min n (buffer_size - length l.buffer)) (length l.stream)
unfolding receive
length-receive n fds l = omega (
  arith,
  length-append l.buffer (take (min n (buffer_size - length l.buffer)) l.stream),
  length-take (min n (buffer_size - length l.buffer)) l.stream,
)

-- The two ways in which a wait completes without reading on.
pub complete-Received :
    (target : ℕ) (es : List Event) (l : Link)
    → All IsCalm es
    → length l.buffer ≤ buffer_size
    → (target ≤ length l.buffer) ⊎ ((l.stream ≡ []) ⊎ (length l.buffer ≡ buffer_size))
    → Received (l.buffer ++ l.stream) target (complete, es, l)
complete-Received target es l calm within why = record {
  same = refl;
  within = within;
  calm = calm;
  ended = inr (refl, why);
}

pub nothing_received :
    (n : ℕ) (fds : List ℕ) (l : Link)
    → 0 < n
    → length l.buffer ≤ buffer_size
    → length (receive n fds l).buffer - length l.buffer ≡ 0
    → (l.stream ≡ []) ⊎ (length l.buffer ≡ buffer_size)
nothing_received n fds l pos within e = elim (Bool-cases (length l.stream == 0)) [
  | inl none_left ↦ inl (eq-nil_of_length l.stream (ground arith))
  | inr some_left ↦ inr (ground (arith, length-receive n fds l))
]

pub recv_at_least-Received :
    (target wanted total : ℕ) (es : List Event) (l : Link)
    → All IsCalm es
    → length l.buffer ≤ buffer_size
    → wanted + length l.buffer ≡ target + total
    → Received (l.buffer ++ l.stream) target (recv_at_least wanted total es l)
unfolding recv_at_least
recv_at_least-Received target wanted total [] l calm within e =
    elim (Bool-cases (leb wanted total)) [
      | inl done ↦
          let enough = leb→le wanted total done in
          rw done (complete-Received target [] l calm within (inl (omega arith)))
      | inr more ↦ rw more (record { same = refl; within = within; calm = calm; ended = inl refl })
    ]
recv_at_least-Received target wanted total (offer n fds ∷ es) l calm within e =
    let l' = receive n fds l in
    let got = length l'.buffer - length l.buffer in
    let grown = length-receive n fds l in
    elim (Bool-cases (leb wanted total)) [
      | inl done ↦
          let enough = leb→le wanted total done in
          rw done (complete-Received target (offer n fds ∷ es) l calm within (inl (omega arith)))
      | inr more ↦ rw more (elim (Bool-cases (got == 0)) [
        | inl stop ↦ rw stop (
            complete-Received target es l calm.1 within
              (inr (nothing_received n fds l calm.0 within ((==_iff got 0).0 stop))))
        | inr again ↦
            rw (again, ← same-receive n fds l)
              (recv_at_least-Received target wanted (total + got) es l' calm.1
                (omega (arith, grown)) (omega (arith, grown)))
      ])
    ]
recv_at_least-Received target wanted total (would_block ∷ es) l calm within e =
    elim (Bool-cases (leb wanted total)) [
      | inl done ↦
          let enough = leb→le wanted total done in
          rw done (complete-Received target (would_block ∷ es) l calm within (inl (omega arith)))
      | inr more ↦ rw more (recv_at_least-Received target wanted total es l calm.1 within e)
    ]
recv_at_least-Received target wanted total (failure ∷ es) l calm within e = absurd calm.0

pub fill-Received :
    (target : ℕ) (es : List Event) (l : Link)
    → All IsCalm es
    → length l.buffer ≤ buffer_size
    → Received (l.buffer ++ l.stream) target (fill target es l)
unfolding fill
fill-Received target es l calm within = elim (Bool-cases (ltb (length l.buffer) target)) [
  | inl short ↦
      let less = ltb→lt (length l.buffer) target short in
      rw short
        (recv_at_least-Received target (target - length l.buffer) 0 es l calm within (omega arith))
  | inr enough ↦ rw enough (complete-Received target es l calm within (inl (ground arith)))
]
