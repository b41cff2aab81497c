-- ===== src/Frame/RoundTrip.antt =====
-- frame.cpp: decoding gives back what was encoded, and accepts nothing that is not an encoding
-- with bytes behind it.
use e2ee_windows.Common.{
  ◌^◌, ◌%◌, ℕ, ◌+◌, ◌≤◌, ◌<◌, ◌≡◌, refl, sym, ◌∙◌, some, ◌++◌, arith, Bytes, IsByte, All, length,
  drop, take, length-append, take-append-drop, length-take, drop-drop, length-drop, All-take,
  All-drop, take-append, append_assoc,
}
use e2ee_windows.Common.Word.{IsU16, IsU32, to_le, from_le, to_le-from_le, from_le-lt}
use e2ee_windows.Frame.{
  Frame, FrameType, type_code, frame_type, raw_header, encode_frame, decode_frame, field,
  header_size, magic, version,
}

-- `other` holds only values that the enumeration does not name, and that fit 16 bits.
abbrev pub IsProper : FrameType → Type 0
IsProper t = (frame_type (type_code t) ≡ t) × IsU16 (type_code t)

pub type_code-frame_type : (n : ℕ) → type_code (frame_type n) ≡ n
unfolding type_code frame_type
type_code-frame_type n = ground arith

decode_header :
    (type len : ℕ) (rest : Bytes)
    → IsU16 type
    → IsU32 len
    → len ≤ length rest
    → decode_frame (raw_header type len ++ rest)
      ≡ some (record { type = frame_type type; payload = take len rest })
unfolding decode_frame raw_header to_le from_le
decode_header type len rest ht hl h = ground arith

-- A frame whose type fits 16 bits and whose payload is shorter than 2 ^ 32 bytes is decoded to
-- itself, whatever bytes follow it.
pub decode_frame-encode_frame :
    (f : Frame) (rest : Bytes)
    → IsProper f.type
    → length f.payload < 2 ^ 32
    → decode_frame (encode_frame f ++ rest) ≡ some f
unfolding encode_frame
decode_frame-encode_frame f rest p h = ground (
  arith,
  append_assoc (raw_header (type_code f.type) (length f.payload % 2 ^ 32)) f.payload rest,
  decode_header (type_code f.type) (length f.payload) (f.payload ++ rest),
  length-append f.payload rest,
  take-append (length f.payload) f.payload rest refl,
)

field_bytes :
    (bs : Bytes) (off n : ℕ)
    → off + n ≤ length bs
    → All IsByte bs
    → take n (drop off bs) ≡ to_le n (field bs off n)
field_bytes bs off n h b = sym (
    to_le-from_le n (take n (drop off bs))
      (omega (arith, length-take n (drop off bs), length-drop off bs))
      (All-take IsByte n (drop off bs) (All-drop IsByte off bs b)))

-- A buffer of at least twelve bytes, cut at the fields of the header.
cut_header :
    (bs : Bytes)
    → header_size ≤ length bs
    → bs
      ≡ take 4 bs
        ++ (take 2 (drop 4 bs) ++ (take 2 (drop 6 bs) ++ (take 4 (drop 8 bs) ++ drop 12 bs)))
cut_header bs h = ground (
  arith,
  take-append-drop 4 bs,
  take-append-drop 2 (drop 4 bs),
  take-append-drop 2 (drop 6 bs),
  take-append-drop 4 (drop 8 bs),
  drop-drop 2 4 bs,
  drop-drop 2 6 bs,
  drop-drop 4 8 bs,
)

decode_parts :
    (bs : Bytes) (f : Frame)
    → decode_frame bs ≡ some f
    → (12 + field bs 8 4 ≤ length bs)
      × (field bs 0 4 ≡ magic)
      × (field bs 4 2 ≡ version)
      × (f
          ≡ record { type = frame_type (field bs 6 2); payload = take (field bs 8 4) (drop 12 bs) })
unfolding decode_frame
decode_parts bs f h = ground arith

field-lt : (bs : Bytes) (off n : ℕ) → off + n ≤ length bs → All IsByte bs → field bs off n < 256 ^ n
field-lt bs off n h b =
    from_le-lt n (take n (drop off bs))
      (omega (arith, length-take n (drop off bs), length-drop off bs))
      (All-take IsByte n (drop off bs) (All-drop IsByte off bs b))

reassemble :
    (bs : Bytes) (type len : ℕ)
    → 12 + len ≤ length bs
    → All IsByte bs
    → field bs 0 4 ≡ magic
    → field bs 4 2 ≡ version
    → field bs 6 2 ≡ type
    → field bs 8 4 ≡ len
    → bs ≡ raw_header type len ++ (take len (drop 12 bs) ++ drop (12 + len) bs)
unfolding raw_header
reassemble bs type len fits b em ev et el =
    cut_header bs (omega arith)
    ∙ rw
        (
          field_bytes bs 0 4 (omega arith) b,
          field_bytes bs 4 2 (omega arith) b,
          field_bytes bs 6 2 (omega arith) b,
          field_bytes bs 8 4 (omega arith) b,
          em,
          ev,
          et,
          el,
        )
        (rw (← drop-drop len 12 bs, take-append-drop len (drop 12 bs)) (simp append_assoc))

-- A buffer that decodes is the encoding of the decoded frame with any bytes behind it; so a wrong
-- magic, a wrong version, a short header and a payload that is cut off are all refused.
pub decode_frame_exact :
    (bs : Bytes) (f : Frame)
    → All IsByte bs
    → decode_frame bs ≡ some f
    → (bs ≡ encode_frame f ++ drop (12 + length f.payload) bs)
      × IsProper f.type
      × (length f.payload < 2 ^ 32)
unfolding encode_frame
decode_frame_exact bs f b h =
    let (fits, em, ev, ef) = decode_parts bs f h in
    let size : length (take (field bs 8 4) (drop 12 bs)) ≡ field bs 8 4 =
      omega (arith, length-take (field bs 8 4) (drop 12 bs), length-drop 12 bs) in
    ground (
      arith,
      reassemble bs (field bs 6 2) (field bs 8 4) fits b em ev refl refl,
      type_code-frame_type (field bs 6 2),
      field-lt bs 6 2 (omega arith) b,
      field-lt bs 8 4 (omega arith) b,
      append_assoc (raw_header (field bs 6 2) (field bs 8 4)) (take (field bs 8 4) (drop 12 bs))
          (drop (12 + field bs 8 4) bs),
    )
