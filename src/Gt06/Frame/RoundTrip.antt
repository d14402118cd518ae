-- ===== src/Gt06/Frame/RoundTrip.antt =====
-- A frame that is built by the protocol's layout is parsed back, whatever follows it.
use karshipta.Common.{
  ℕ, ◌+◌, ◌-◌, ◌/◌, ◌%◌, ◌^◌, ◌≤◌, ◌<◌, ◌≡◌, refl, ap, ◌∙◌, true, false, not, List, [], ◌∷◌, ◌++◌,
  append_assoc, Option, some, arith, ltb, ◌==◌, length, length-append, get_elem?,
  get_elem?-append_right, take-append, drop-append, ◌>>=◌,
}
use karshipta.Common.Bits.{bit_or-shifted}
use karshipta.Gt06.Crc.{crc16_x25, crc16_x25-lt}
use karshipta.Gt06.Types.{ParseResult, Platform}
use karshipta.Gt06.Content.{read, subspan, read_u16, parse_content}
use karshipta.Gt06.Content.Total.{subspan-eq}
use karshipta.Gt06.Frame.{
  stop_byte1, stop_byte2, start_marker, length_field_width, read_length_value,
  check_declared_length, answer, decode_packet, decode_frame, parse_delimited, parse_frame,
}

-- The two bytes of a 16-bit value, the high one first.
abbrev pub be16 : ℕ → List ℕ
be16 v = (v / 2 ^ 8) ∷ (v % 2 ^ 8) ∷ []

-- What the checksum covers: the length field, the type, the content and the serial number.
abbrev pub covered : ℕ → List ℕ → ℕ → List ℕ
covered type_byte content serial = (length content + 5) ∷ type_byte ∷ (content ++ be16 serial)

-- The standard frame of the protocol.
abbrev pub standard_frame : ℕ → List ℕ → ℕ → List ℕ
standard_frame type_byte content serial =
    0x78
    ∷ 0x78
    ∷ (covered type_byte content serial
        ++ (be16 (crc16_x25 (covered type_byte content serial)) ++ (stop_byte1 ∷ stop_byte2 ∷ [])))

-- The packet that a frame's content stands for.
unfoldable pub packet_of : {D : Type 0} → Platform D → ℕ → ℕ → List ℕ → ℕ → Option (ParseResult D)
packet_of platform total type_byte content serial = do
  packet ← parse_content platform type_byte content serial
  some (answer total serial false packet)

read_u16-be16 :
    (bytes : List ℕ) (i v : ℕ)
    → v < 2 ^ 16
    → read bytes i ≡ some (v / 2 ^ 8)
    → read bytes (i + 1) ≡ some (v % 2 ^ 8)
    → read_u16 bytes i ≡ some v
unfolding read_u16
read_u16-be16 bytes i v h e e' =
    rw (e, e') (ground (arith, bit_or-shifted 8 (v / 2 ^ 8) (v % 2 ^ 8)))

module _ {D : Type 0} (platform : Platform D) where
  -- The path of `parse_frame` through a standard frame whose declared length checks out.
  parse_frame-starts :
      (bytes : List ℕ)
      → 3 ≤ length bytes
      → read bytes 0 ≡ some 0x78
      → read bytes 1 ≡ some 0x78
      → parse_frame platform bytes ≡ parse_delimited platform false bytes
  unfolding parse_frame start_marker length_field_width
  parse_frame-starts bytes h e0 e1 =
      let long : ltb (length bytes) 2 ≡ false = ground arith in
      let longer : ltb (length bytes) 3 ≡ false = ground arith in
      rw (long, parse_frame) (rw (e0, e1) (ground arith))

  check_declared_length-true :
      (bytes : List ℕ) (v : ℕ)
      → 5 ≤ v
      → 3 + v + 2 ≤ length bytes
      → read bytes (3 + v + 2 - 2) ≡ some stop_byte1
      → read bytes (3 + v + 2 - 1) ≡ some stop_byte2
      → check_declared_length bytes v (3 + v + 2) ≡ some true
  unfolding check_declared_length
  check_declared_length-true bytes v h fits ea eb = ground arith

  decode_frame-fits :
      (bytes : List ℕ) (total v : ℕ)
      → 5 ≤ v
      → 3 + v + 2 ≤ length bytes
      → decode_frame platform bytes total 1 v ≡ decode_packet platform bytes total 3 (v - 5)
  unfolding decode_frame
  decode_frame-fits bytes total v h fits = ground arith

  parse_delimited-declared :
      (bytes : List ℕ) (v : ℕ)
      → 5 ≤ v
      → 3 + v + 2 ≤ length bytes
      → read bytes 2 ≡ some v
      → read bytes (3 + v + 2 - 2) ≡ some stop_byte1
      → read bytes (3 + v + 2 - 1) ≡ some stop_byte2
      → parse_delimited platform false bytes ≡ decode_packet platform bytes (3 + v + 2) 3 (v - 5)
  unfolding parse_delimited read_length_value length_field_width
  parse_delimited-declared bytes v h fits e2 ea eb =
      rw (e2, ◌>>=◌)
        (rw (check_declared_length-true bytes v h fits ea eb)
          (decode_frame-fits bytes (3 + v + 2) v h fits))

  decode_packet-eq :
      (bytes : List ℕ) (total t n type_byte serial received : ℕ) (content checked : List ℕ)
      → read bytes t ≡ some type_byte
      → subspan bytes (t + 1) n ≡ some content
      → read_u16 bytes (t + 1 + n) ≡ some serial
      → read_u16 bytes (t + 1 + n + 2) ≡ some received
      → subspan bytes 2 (t + 1 + n + 2 - 2) ≡ some checked
      → crc16_x25 checked ≡ received
      → decode_packet platform bytes total t n ≡ packet_of platform total type_byte content serial
  unfolding decode_packet packet_of
  decode_packet-eq bytes total t n type_byte serial received content checked e1 e2 e3 e4 e5 e6 =
      let same : not (crc16_x25 checked == received) ≡ false = ground arith in
      rw (e1, e2, e3, e4, e5) (simp same refl)

  module _ (type_byte : ℕ) (content : List ℕ) (serial : ℕ) (rest : List ℕ) where
    crc : ℕ
    crc = crc16_x25 (covered type_byte content serial)

    tail : List ℕ
    tail =
        (serial / 2 ^ 8)
        ∷ (serial % 2 ^ 8)
        ∷ (crc / 2 ^ 8)
        ∷ (crc % 2 ^ 8)
        ∷ stop_byte1
        ∷ stop_byte2
        ∷ rest

    buffer : List ℕ
    buffer = 0x78 ∷ 0x78 ∷ (length content + 5) ∷ type_byte ∷ (content ++ tail)

    buffer-eq : standard_frame type_byte content serial ++ rest ≡ buffer
    unfolding buffer tail crc
    buffer-eq = simp append_assoc refl

    length-buffer : length buffer ≡ length content + 10 + length rest
    unfolding buffer tail
    length-buffer = omega (arith, length-append content tail)

    read-tail : (k j : ℕ) → j ≡ 4 + length content + k → get_elem? buffer j ≡ get_elem? tail k
    unfolding buffer
    read-tail k j e =
        get_elem?-append_right (0x78 ∷ 0x78 ∷ (length content + 5) ∷ type_byte ∷ content) tail k j
          (omega arith)

    subspan-buffer :
        (offset count : ℕ) (front part back : List ℕ)
        → buffer ≡ front ++ (part ++ back)
        → offset ≡ length front
        → count ≡ length part
        → subspan buffer offset count ≡ some part
    subspan-buffer offset count front part back e eo ec = rw (subspan-eq buffer offset count fits) (
        ap some
          (rw (e, drop-append offset front (part ++ back) eo) (take-append count part back ec)))
      where
        fits : offset + count ≤ length buffer
        fits =
            omega (arith, ap length e, length-append front (part ++ back), length-append part back)

    -- The fields of the frame, where `decode_packet` reads them.
    decode_packet-buffer :
        (total : ℕ)
        → serial < 2 ^ 16
        → decode_packet platform buffer total 3 (length content)
          ≡ packet_of platform total type_byte content serial
    decode_packet-buffer total hs =
        decode_packet-eq buffer total 3 (length content) type_byte serial crc content
          (covered type_byte content serial) (unfold buffer in refl) content_lies serial_read
          crc_read covered_lies (unfold crc in refl)
      where
        content_lies : subspan buffer 4 (length content) ≡ some content
        content_lies =
            subspan-buffer 4 (length content) (0x78 ∷ 0x78 ∷ (length content + 5) ∷ type_byte ∷ [])
              content tail (unfold buffer in refl) refl refl

        serial_read : read_u16 buffer (4 + length content) ≡ some serial
        serial_read =
            read_u16-be16 buffer (4 + length content) serial hs
              (read-tail 0 (4 + length content) (omega arith) ∙ unfold tail in refl)
              (read-tail 1 (4 + length content + 1) (omega arith) ∙ unfold tail in refl)

        crc_read : read_u16 buffer (4 + length content + 2) ≡ some crc
        crc_read =
            read_u16-be16 buffer (4 + length content + 2) crc (unfold crc in crc16_x25-lt _)
              (read-tail 2 (4 + length content + 2) (omega arith) ∙ unfold tail in refl)
              (read-tail 3 (4 + length content + 2 + 1) (omega arith) ∙ unfold tail in refl)

        covered_lies :
            subspan buffer 2 (4 + length content + 2 - 2) ≡ some (covered type_byte content serial)
        covered_lies =
            subspan-buffer 2 (4 + length content + 2 - 2) (0x78 ∷ 0x78 ∷ [])
              (covered type_byte content serial)
              ((crc / 2 ^ 8) ∷ (crc % 2 ^ 8) ∷ stop_byte1 ∷ stop_byte2 ∷ rest)
              (unfold buffer tail in simp append_assoc refl) refl
              (omega (arith, length-append content (be16 serial)))

    -- A well-formed standard frame (content of at most 250 bytes, 16-bit serial number), followed by
    -- any bytes, is parsed: the answer is its content's packet with no checksum mismatch, and the
    -- bytes consumed are exactly the frame's.
    pub parse_frame-standard_frame :
        length content ≤ 250
        → serial < 2 ^ 16
        → parse_frame platform (standard_frame type_byte content serial ++ rest)
          ≡ packet_of platform (length content + 10) type_byte content serial
    unfolding parse_frame parse_delimited
    parse_frame-standard_frame fits hs = rw buffer-eq (
        parse_frame-starts buffer (omega (arith, length-buffer)) (unfold buffer in refl)
          (unfold buffer in refl)
        ∙ parse_delimited-declared buffer (length content + 5) (omega arith)
            (omega (arith, length-buffer)) (unfold buffer in refl)
            (read-tail 4 _ (omega arith) ∙ unfold tail in refl)
            (read-tail 5 _ (omega arith) ∙ unfold tail in refl)
        ∙ (let size : length content + 5 - 5 ≡ length content = omega arith in
            let total : 3 + (length content + 5) + 2 ≡ length content + 10 = omega arith in
            rw (size, total) (decode_packet-buffer (length content + 10) hs)))
