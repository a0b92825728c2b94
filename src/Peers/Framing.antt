-- ===== src/Peers/Framing.antt =====
-- What is sent on a connection is what the other side handles.
use ironwood.Base.{
  ℕ, zero, suc, ◌+◌, ◌<◌, ◌≡◌, refl, sym, subst, ap, ◌∙◌, inl, inr, true, false, List, [], ◌∷◌,
  ◌++◌, Option, none, some, ltb, if◌then◌else◌, length, take, drop, arith, All, Bool-cases,
  append_assoc, length-append, take-append, drop-append,
}
use ironwood.Types.{Result, ok}
use ironwood.Wire.{Bytes, IsU64, wire_append_uint, wire_chop_uint}
use ironwood.Wire.Uvarint.{
  uvarint, wire_append_uint-uvarint, wire_chop_uint-uvarint, wire_chop_uint-nil,
}
use ironwood.Peers.{
  Message, packet_type, message_size, message_encode, wire_encode, send_packet, Ending, read_error,
  read_packet, read_loop, handler,
}

frame : ℕ → Bytes → Bytes
frame kind bs = uvarint (length bs + 1) ++ (kind ∷ bs)

abbrev after : Result (Option Bytes) → Bytes → Bytes
after (ok (some bs)) rest = bs ++ rest
after _ rest = rest

-- All that is written for messages that are sent one by one.
pub stream_of : ℕ → List Message → Bytes
stream_of max_size [] = []
stream_of max_size (m ∷ ms) = after (send_packet max_size m) (stream_of max_size ms)

-- What is encoded can be handled: `outcome` is what _handlePacket then does.
pub record Handles {C : Type 0} (handle : Bytes → Result C) (m : Message) (outcome : C)
    : Type 0 where
  pub image : Bytes → Bytes
  pub encoded : (out : Bytes) → message_encode m out ≡ ok (out ++ image out)
  pub size : (out : Bytes) → length (image out) ≡ message_size m
  pub handled : (out : Bytes) → handle (packet_type m ∷ image out) ≡ ok outcome

-- The outcomes of the messages that are not too large, in order.
pub kept : {C : Type 0} → (Message → C) → ℕ → List Message → List C
kept outcome max_size [] = []
kept outcome max_size (m ∷ ms) =
    let rest = kept outcome max_size ms in
    if ltb max_size (message_size m + 1) then rest else outcome m ∷ rest

wire_encode-frame :
    (out image : Bytes) (m : Message)
    → message_encode m (out ++ (packet_type m ∷ [])) ≡ ok ((out ++ (packet_type m ∷ [])) ++ image)
    → wire_encode out m ≡ ok (out ++ (packet_type m ∷ image))
unfolding wire_encode
wire_encode-frame out image m e =
    rw (e, wire_encode) (ap ok (append_assoc out (packet_type m ∷ []) image))

module _ {C : Type 0} (handle : Bytes → Result C) (max_size : ℕ) where
  -- The encoded message, as sendPacket appends it to its size and type.
  sent_image : (m : Message) {c : C} → Handles handle m c → Bytes
  sent_image m h = h.image (wire_append_uint [] (message_size m + 1) ++ (packet_type m ∷ []))

  send_packet-frame :
      (m : Message) (c : C) (h : Handles handle m c)
      → ltb max_size (message_size m + 1) ≡ false
      → send_packet max_size m ≡ ok (some (frame (packet_type m) (sent_image m h)))
  unfolding send_packet frame sent_image
  send_packet-frame m c h fits =
      let head = wire_append_uint [] (message_size m + 1) in
      let start = head ++ (packet_type m ∷ []) in
      rw (fits, wire_encode-frame head (h.image start) m (h.encoded start))
        (ap (λ (bs : Bytes). ok (some (bs ++ (packet_type m ∷ h.image start))))
          (wire_append_uint-uvarint [] (message_size m + 1)
            ∙ ap (λ (n : ℕ). uvarint (n + 1)) (sym (h.size start))))

  stream_of-frame :
      (m : Message) (ms : List Message) (c : C) (h : Handles handle m c)
      → ltb max_size (message_size m + 1) ≡ false
      → stream_of max_size (m ∷ ms)
        ≡ frame (packet_type m) (sent_image m h) ++ stream_of max_size ms
  unfolding stream_of
  stream_of-frame m ms c h fits =
      ap (λ (o : Result (Option Bytes)). after o (stream_of max_size ms))
        (send_packet-frame m c h fits)

  stream_of-dropped :
      (m : Message) (ms : List Message)
      → ltb max_size (message_size m + 1) ≡ true
      → stream_of max_size (m ∷ ms) ≡ stream_of max_size ms
  unfolding stream_of send_packet
  stream_of-dropped m ms large = rw (large) refl

  read_loop-size :
      (fuel size : ℕ) (stream rest : Bytes)
      → wire_chop_uint stream ≡ some (size, rest)
      → read_loop handle max_size (suc fuel) stream
        ≡ read_packet handle max_size size rest (read_loop handle max_size fuel (drop size rest))
  unfolding read_loop
  read_loop-size fuel size stream rest e = rw (e, read_loop) refl

  read_loop-none :
      (fuel : ℕ) (stream : Bytes)
      → wire_chop_uint stream ≡ none
      → read_loop handle max_size (suc fuel) stream ≡ ([], read_error)
  unfolding read_loop
  read_loop-none fuel stream e = rw (e, read_loop) refl

  read_packet-ok :
      (size : ℕ) (rest packet : Bytes) (c : C) (later : List C × Ending)
      → ltb max_size size ≡ false
      → ltb (length rest) size ≡ false
      → take size rest ≡ packet
      → handle packet ≡ ok c
      → read_packet handle max_size size rest later ≡ (c ∷ later.0, later.1)
  unfolding read_packet
  read_packet-ok size rest packet c later small long taken fine =
      rw (small, long, ap handle taken ∙ fine) refl

  -- One round of the loop.
  read_loop-frame :
      (fuel kind : ℕ) (bs rest : Bytes) (c : C)
      → IsU64 max_size
      → ltb max_size (length bs + 1) ≡ false
      → handle (kind ∷ bs) ≡ ok c
      → read_loop handle max_size (suc fuel) (frame kind bs ++ rest)
        ≡ (c ∷ (read_loop handle max_size fuel rest).0, (read_loop handle max_size fuel rest).1)
  unfolding frame
  read_loop-frame fuel kind bs rest c fits small fine =
      read_loop-size fuel (length bs + 1) (frame kind bs ++ rest) (kind ∷ (bs ++ rest)) chopped
      ∙ ap
          (λ (s : Bytes).
            read_packet handle max_size (length bs + 1) (kind ∷ (bs ++ rest))
              (read_loop handle max_size fuel s))
          dropped
      ∙ read_packet-ok (length bs + 1) (kind ∷ (bs ++ rest)) (kind ∷ bs) c
          (read_loop handle max_size fuel rest) small long taken fine
    where
      chopped : wire_chop_uint (frame kind bs ++ rest) ≡ some (length bs + 1, kind ∷ (bs ++ rest))
      chopped =
          ap (λ (s : Bytes). wire_chop_uint s)
            (append_assoc (uvarint (length bs + 1)) (kind ∷ bs) rest)
          ∙ wire_chop_uint-uvarint (length bs + 1) (kind ∷ (bs ++ rest))
              (ground (arith, small, fits))

      long : ltb (suc (length (bs ++ rest))) (length bs + 1) ≡ false
      long = ground (arith, length-append bs rest)

      size : suc (length bs) ≡ length bs + 1
      size = omega arith

      taken : take (length bs + 1) (kind ∷ (bs ++ rest)) ≡ kind ∷ bs
      taken =
          subst (λ (n : ℕ). take n (kind ∷ (bs ++ rest)) ≡ kind ∷ bs) size
            (take-append (kind ∷ bs) rest)

      dropped : drop (length bs + 1) (kind ∷ (bs ++ rest)) ≡ rest
      dropped =
          subst (λ (n : ℕ). drop n (kind ∷ (bs ++ rest)) ≡ rest) size (drop-append (kind ∷ bs) rest)

  frame-longer : (kind : ℕ) (bs rest : Bytes) → length rest < length (frame kind bs ++ rest)
  unfolding frame
  frame-longer kind bs rest = omega (
    arith,
    length-append (uvarint (length bs + 1) ++ (kind ∷ bs)) rest,
    length-append (uvarint (length bs + 1)) (kind ∷ bs),
  )

  image-fits :
      (m : Message) {c : C} (h : Handles handle m c)
      → ltb max_size (message_size m + 1) ≡ false
      → ltb max_size (length (sent_image m h) + 1) ≡ false
  unfolding sent_image
  image-fits m h small =
      ground
        (arith, small, h.size (wire_append_uint [] (message_size m + 1) ++ (packet_type m ∷ [])))

  image-handled :
      (m : Message) {c : C} (h : Handles handle m c)
      → handle (packet_type m ∷ sent_image m h) ≡ ok c
  unfolding sent_image
  image-handled m h = h.handled (wire_append_uint [] (message_size m + 1) ++ (packet_type m ∷ []))

  read_loop-stream_of :
      (outcome : Message → C) (ms : List Message) (fuel : ℕ)
      → IsU64 max_size
      → All (λ (m : Message). Handles handle m (outcome m)) ms
      → length (stream_of max_size ms) < fuel
      → read_loop handle max_size fuel (stream_of max_size ms)
        ≡ (kept outcome max_size ms, read_error)
  unfolding kept stream_of
  read_loop-stream_of outcome ms zero fits fine enough = absurd (omega (arith, enough))
  read_loop-stream_of outcome [] (suc fuel) fits fine enough =
      read_loop-none fuel [] wire_chop_uint-nil
  read_loop-stream_of outcome (m ∷ ms) (suc fuel) fits fine enough =
      let rest = stream_of max_size ms in
      let h = fine.0 in
      let image = sent_image m h in
      elim (Bool-cases (ltb max_size (message_size m + 1))) [
        | inl large ↦
            rw (stream_of-dropped m ms large, large)
              (read_loop-stream_of outcome ms (suc fuel) fits fine.1
                (subst (λ (s : Bytes). length s < suc fuel) (stream_of-dropped m ms large) enough))
        | inr small ↦
            let cut = stream_of-frame m ms (outcome m) h small in
            let longer = subst (λ (s : Bytes). length s < suc fuel) cut enough in
            rw
              (
                cut,
                read_loop-frame fuel (packet_type m) image rest (outcome m) fits
                    (image-fits m h small) (image-handled m h),
                read_loop-stream_of outcome ms fuel fits fine.1
                    (omega (arith, longer, frame-longer (packet_type m) image rest)),
                small,
              )
              refl
      ]

  -- What _handlePacket does with messages that are sent one after another.
  pub handler-stream_of :
      (outcome : Message → C) (ms : List Message)
      → IsU64 max_size
      → All (λ (m : Message). Handles handle m (outcome m)) ms
      → handler handle max_size (stream_of max_size ms) ≡ (kept outcome max_size ms, read_error)
  unfolding handler
  handler-stream_of outcome ms fits fine =
      read_loop-stream_of outcome ms (suc (length (stream_of max_size ms))) fits fine (omega arith)
