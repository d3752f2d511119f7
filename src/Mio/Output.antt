-- ===== src/Mio/Output.antt =====
-- What of the queued messages reaches the socket.
use mathlib.Core.List.{flatten}
use angry_balls.Base.{
  ℕ, suc, List, [], ◌∷◌, ◌++◌, ◌||◌, map, take_all, length, some, append-nil, append_assoc, ◌≡◌,
  refl, ap, arith,
}
use angry_balls.Bytes.{Bytes}
use angry_balls.Mio.{
  Written, wrote, would_block, Connection, buffer_or, write, write_queue, on_output,
}

emptied :
    (c : Connection)
    → c.writer.buffer ≡ []
    → c.writer ≡ record { buffer = []; wire = c.writer.wire }
emptied c e = ap (λ (b : Bytes). record { buffer = b; wire = c.writer.wire }) e

buffer_or_nonempty : (x y : Bytes) {b : ℕ} {bs : Bytes} → x ≡ b ∷ bs → buffer_or x y ≡ x
buffer_or_nonempty [] y e = cc
buffer_or_nonempty (a ∷ x) y e = refl

-- The connection with an empty queue and so much on the wire.
abbrev written : Connection → Bytes → Connection
written c wire = record {
  writer = record { buffer = []; wire = wire };
  output_queue = [];
  close_after_output = c.close_after_output;
  need_close = c.close_after_output || c.need_close;
}

module _ (get_response : Bytes → Bytes) (answers : ℕ → Written) where
  -- From the k-th call on the socket takes all that it is given.
  abbrev pub TakesAll : ℕ → List Bytes → Type 0
  TakesAll k [] = Unit
  TakesAll k (m ∷ ms) = (answers k ≡ wrote (length (get_response m))) × TakesAll (suc k) ms

  write_queue-TakesAll :
      (k : ℕ) (ms : List Bytes) (wire : Bytes)
      → TakesAll k ms
      → write_queue get_response answers k ms (record { buffer = []; wire = wire })
        ≡ some (record { buffer = []; wire = wire ++ flatten (map get_response ms) })
  unfolding write_queue write flatten
  write_queue-TakesAll k [] wire h = rw (append-nil wire) refl
  write_queue-TakesAll k (m ∷ ms) wire (h, hs) =
      let response = get_response m in
      let rest = write_queue-TakesAll (suc k) ms (wire ++ response) hs in
      rw
        (
          write_queue,
          h,
          take_all response (length response) (omega arith),
          rest,
          append_assoc wire response (flatten (map get_response ms)),
        )
        refl

  -- If the socket takes all that it is given, `onOutput` empties the queue and puts the responses to
  -- its messages on the wire, in their order and complete; with nothing left over from before.
  pub on_output-TakesAll :
      (c : Connection)
      → c.writer.buffer ≡ []
      → TakesAll 0 c.output_queue
      → (c' : Connection) × (on_output get_response answers c ≡ some c')
        × (c'.output_queue ≡ [])
        × (c'.writer.buffer ≡ [])
        × (c'.writer.wire ≡ c.writer.wire ++ flatten (map get_response c.output_queue))
  unfolding on_output
  on_output-TakesAll c e h = (
    written c (c.writer.wire ++ flatten (map get_response c.output_queue)),
    rw (on_output, emptied c e, write_queue-TakesAll 0 c.output_queue c.writer.wire h) refl,
    refl,
    refl,
    refl,
  )

  -- A socket that would block once loses a message: with two messages in the queue, the first of
  -- which gets a response of at least a byte and would block, and the second of which finds the socket
  -- taking all, the queue is emptied and only the first response is on the wire.
  pub on_output_blocked :
      (c : Connection) (m n : Bytes) {b : ℕ} {bs : Bytes}
      → c.writer.buffer ≡ []
      → c.output_queue ≡ m ∷ n ∷ []
      → get_response m ≡ b ∷ bs
      → answers 0 ≡ would_block
      → answers 1 ≡ wrote (length (get_response m))
      → (c' : Connection) × (on_output get_response answers c ≡ some c')
        × (c'.output_queue ≡ [])
        × (c'.writer.buffer ≡ [])
        × (c'.writer.wire ≡ c.writer.wire ++ get_response m)
  unfolding on_output write_queue write
  on_output_blocked c m n e q r h0 h1 =
      let all = take_all (get_response m) (length (get_response m)) (omega arith) in
      let kept = buffer_or_nonempty (get_response m) (get_response n) r in
      (
        written c (c.writer.wire ++ get_response m),
        rw (on_output, emptied c e, q, write_queue, write, h0, h1, kept, all) refl,
        refl,
        refl,
        refl,
      )
