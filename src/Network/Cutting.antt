-- ===== src/Network/Cutting.antt =====
-- network_server.cpp: a frame that does not fit the buffer.
use e2ee_windows.Common.{
  ℕ, ◌%◌, ◌^◌, ◌<◌, ◌≡◌, refl, ◌∙◌, ap, Bytes, none, done, ◌++◌, arith, length, length-take, take,
  is_empty, false,
}
use e2ee_windows.Common.Word.{IsU16, IsU32, to_le, from_le}
use e2ee_windows.Frame.{Frame, type_code, raw_header, encode_frame, decode_frame}
use e2ee_windows.Frame.RoundTrip.{IsProper}
use e2ee_windows.Router.{Env}
use e2ee_windows.Connection.{ConnectionHandler, on_frame, on_data}
use e2ee_windows.Network.{received, serve}

-- A payload that is shorter than the header says.
decode_short :
    (type len : ℕ) (rest : Bytes)
    → IsU16 type
    → IsU32 len
    → length rest < len
    → decode_frame (raw_header type len ++ rest) ≡ none
unfolding decode_frame raw_header to_le from_le
decode_short type len rest ht hl h = ground arith

-- The front of a frame is its header and the front of its payload.
received-encode_frame :
    (f : Frame)
    → received (encode_frame f)
      ≡ raw_header (type_code f.type) (length f.payload % 2 ^ 32) ++ take 4084 f.payload
unfolding received encode_frame raw_header to_le
received-encode_frame f = refl

is_empty-received : (f : Frame) → is_empty (received (encode_frame f)) ≡ false
unfolding received encode_frame raw_header to_le
is_empty-received f = refl

decode_frame-received :
    (f : Frame)
    → IsProper f.type
    → 4084 < length f.payload
    → length f.payload < 2 ^ 32
    → decode_frame (received (encode_frame f)) ≡ none
decode_frame-received f p long fits =
    let wrap : length f.payload % 2 ^ 32 ≡ length f.payload = omega (arith, fits) in
    ap decode_frame (received-encode_frame f)
    ∙ decode_short (type_code f.type) (length f.payload % 2 ^ 32) (take 4084 f.payload) p.1
        (omega (arith, fits)) (omega (arith, long, wrap, length-take 4084 f.payload))

-- A frame of more than 4096 bytes gets no answer and changes nothing, even if all of it has arrived:
-- the server reads once, and what it reads is no frame.
pub serve-received :
    (h : ConnectionHandler) (f : Frame) (env : Env)
    → IsProper f.type
    → 4084 < length f.payload
    → length f.payload < 2 ^ 32
    → serve h (received (encode_frame f)) env ≡ done (h, none)
unfolding serve on_data on_frame
serve-received h f env p long fits =
    rw (is_empty-received f, on_data, decode_frame-received f p long fits) refl
