-- ===== src/Client/Loop.antt =====
-- client.py: `_receive_loop` on the packets of a stream.
use hass_comelit_intercom_lo.Base.{
  ℕ, zero, suc, ◌<◌, ◌≡◌, ◌≢◌, refl, false, Option, List, [], ◌∷◌, ◌++◌, Result, ok, err, ◌>>=◌,
  incomplete_read, arith, length, parts-eq-ok, Error,
}
use hass_comelit_intercom_lo.Base.Bytes.{Bytes}
use hass_comelit_intercom_lo.Protocol.Header.{encode_packet, read_packet, readexactly}
use hass_comelit_intercom_lo.Protocol.RoundTrip.{read_packet-encode_packet, read_packet_shrinks}
use hass_comelit_intercom_lo.Client.State.{Client}
use hass_comelit_intercom_lo.Client.Dispatch.{dispatch}
use hass_comelit_intercom_lo.Client.Calls.{
  closed_by_device, loop_error, starved, loop_end, receive_loop,
}

module _ {Msg : Type 0} (decode_json_body : Bytes → Option Msg) where
  -- The packets are handled in their order.
  abbrev pub dispatch_all : List (ℕ × Bytes) → Client Msg → Result (Client Msg)
  dispatch_all [] c = ok c
  dispatch_all ((id, body) ∷ packets) c =
      dispatch decode_json_body id body c >>= (λ c'. dispatch_all packets c')

-- What the device writes for these packets.
abbrev pub encode_all : List (ℕ × Bytes) → Result Bytes
encode_all [] = ok []
encode_all ((id, body) ∷ packets) = do
  packet ← encode_packet id body
  rest ← encode_all packets
  ok (packet ++ rest)

loop_error_ends : loop_error ≢ starved
loop_error_ends e = cc

loop_end_ends : (e : Error) → loop_end e ≢ starved
unfolding loop_end
loop_end_ends incomplete_read e = cc
loop_end_ends _ e = cc

module _ {Msg : Type 0} (decode_json_body : Bytes → Option Msg) where
  abbrev Ends : ℕ → Bytes → Client Msg → Type 0
  Ends fuel stream c = (receive_loop decode_json_body fuel stream c).1 ≢ starved

  dispatched_Ends :
      (fuel id : ℕ) (stream body rest : Bytes) (c : Client Msg) (r : Result (Client Msg))
      → read_packet stream ≡ ok ((id, body), rest)
      → dispatch decode_json_body id body c ≡ r
      → ((c' : Client Msg) → Ends fuel rest c')
      → Ends (suc fuel) stream c
  unfolding receive_loop
  dispatched_Ends fuel id stream body rest c (err e) p q k = rw (receive_loop, p, q) loop_error_ends
  dispatched_Ends fuel id stream body rest c (ok c') p q k = rw (receive_loop, p, q) (k c')

  step_Ends :
      (fuel : ℕ) (stream : Bytes) (c : Client Msg) (r : Result ((ℕ × Bytes) × Bytes))
      → read_packet stream ≡ r
      → length stream < suc fuel
      → ((rest : Bytes) (c' : Client Msg) → length rest < fuel → Ends fuel rest c')
      → Ends (suc fuel) stream c
  unfolding receive_loop
  step_Ends fuel stream c (err e) p h k = rw (receive_loop, p) (loop_end_ends e)
  step_Ends fuel stream c (ok ((id, body), rest)) p h k =
      let shorter = read_packet_shrinks stream body rest id p in
      dispatched_Ends fuel id stream body rest c _ p refl
        λ c'. k rest c' (omega (arith, h, shorter))

  -- The loop ends of itself on any stream: as much fuel as the stream has bytes, and one, is enough.
  pub receive_loop_ends :
      (fuel : ℕ) (stream : Bytes) (c : Client Msg)
      → length stream < fuel
      → (receive_loop decode_json_body fuel stream c).1 ≢ starved
  receive_loop_ends zero stream c h = absurd (omega arith)
  receive_loop_ends (suc fuel) stream c h =
      step_Ends fuel stream c _ refl h λ rest c' lt. receive_loop_ends fuel rest c' lt

  -- On a stream of whole packets the loop hands each to `_dispatch`, in their order, and then ends
  -- since the device has closed the connection.
  pub receive_loop-encode_all :
      (fuel : ℕ) (packets : List (ℕ × Bytes)) (stream : Bytes) (c c' : Client Msg)
      → length stream < fuel
      → encode_all packets ≡ ok stream
      → dispatch_all decode_json_body packets c ≡ ok c'
      → receive_loop decode_json_body fuel stream c
        ≡ (record c' { connected = false }, closed_by_device)
  unfolding receive_loop loop_end read_packet readexactly
  receive_loop-encode_all zero packets stream c c' lt e d = absurd (omega arith)
  receive_loop-encode_all (suc fuel) [] stream c c' lt e d = ground (arith, e, d)
  receive_loop-encode_all (suc fuel) ((id, body) ∷ packets) stream c c' lt e d =
      let (packet, p, e1) = parts-eq-ok (encode_packet id body) _ e in
      let (rest, q, e2) = parts-eq-ok (encode_all packets) _ e1 in
      let (c1, r, d1) = parts-eq-ok (dispatch decode_json_body id body c) _ d in
      let eq : stream ≡ packet ++ rest = cc in
      let read : read_packet stream ≡ ok ((id, body), rest) =
        rw eq (read_packet-encode_packet id body packet rest p) in
      let lt' : length rest < fuel =
        omega (arith, lt, read_packet_shrinks stream body rest id read) in
      rw (receive_loop, read, r) (receive_loop-encode_all fuel packets rest c1 c' lt' q d1)
