-- ===== src/Gt06/Frame/Outcome.antt =====
-- What `parse_frame` answers on every buffer.
use karshipta.Common.{
  ℕ, suc, ◌+◌, ◌-◌, ◌≤◌, ◌<◌, ◌≡◌, refl, ◌⊎◌, inl, inr, Bool, true, false, ◌&&◌, List, Option, none,
  some, arith, ltb, leb, ◌==◌, if◌then◌else◌, Bool-cases, Option-cases, length, get_elem?,
  lt-length, Defined, Defined-bind, Returns, Returns-bind, Returns-then, ◌>>=◌,
}
use karshipta.Gt06.Types.{ok, incomplete, invalid, ParsedPacket, ParseResult, Platform}
use karshipta.Gt06.Content.{read, subspan, read_u16, parse_content}
use karshipta.Gt06.Content.Total.{read-Defined, read_u16-Defined, subspan-eq, parse_content-Defined}
use karshipta.Gt06.Frame.Stop.{StopAt, find_stop-found, find_stop-missing}
use karshipta.Gt06.Frame.{
  stop_byte1, stop_byte2, find_stop, start_marker, length_field_width, read_length_value,
  check_declared_length, no_frame, frame, answer, decode_packet, decode_frame, parse_delimited,
  parse_frame,
}

-- The buffer begins with one of the two start markers.
abbrev pub Starts : List ℕ → ℕ → Type 0
Starts bytes b = (get_elem? bytes 0 ≡ some b) × (get_elem? bytes 1 ≡ some b)

abbrev pub StartsFrame : List ℕ → Type 0
StartsFrame bytes = Starts bytes 0x78 ⊎ Starts bytes 0x79

pub data Outcome {D : Type 0} (bytes : List ℕ) (r : ParseResult D) : Type 0 where
  framed :
      r.result ≡ ok
      → StartsFrame bytes
      → 4 ≤ r.consumed_bytes
      → r.consumed_bytes ≤ length bytes
      → StopAt bytes (r.consumed_bytes - 2)
      → Outcome bytes r
  waiting :
      r.result ≡ incomplete
      → ((length bytes < 2) ⊎ StartsFrame bytes)
      → ((i : ℕ) → ¬ StopAt bytes i)
      → Outcome bytes r
  rejected : r.result ≡ invalid → 2 ≤ length bytes → ¬ StartsFrame bytes → Outcome bytes r

read_length_value-Defined :
    (extended : Bool) (bytes : List ℕ)
    → 2 + length_field_width extended ≤ length bytes
    → Defined (read_length_value extended bytes)
unfolding read_length_value length_field_width
read_length_value-Defined true bytes h =
    Defined-bind (read bytes 2) _ (read-Defined bytes 2 (omega arith))
      λ high. Defined-bind (read bytes 3) _ (read-Defined bytes 3 (omega arith)) λ low. (_, refl)
read_length_value-Defined false bytes h = read-Defined bytes 2 (omega arith)

-- Where the declared length checks out, a stop marker ends the declared frame.
abbrev DeclaredEnd : List ℕ → ℕ → Bool → Type 0
DeclaredEnd bytes total b = b ≡ true → (total ≤ length bytes) × StopAt bytes (total - 2)

check_declared_length-Returns :
    (bytes : List ℕ) (length_value total : ℕ)
    → 2 ≤ total
    → Returns (DeclaredEnd bytes total) (check_declared_length bytes length_value total)
unfolding check_declared_length
check_declared_length-Returns bytes length_value total h =
    elim (Bool-cases (leb 5 length_value && leb total (length bytes))) [
      | inl fits ↦ rw (fits, check_declared_length) (both (ground arith))
      | inr not_yet ↦ rw (not_yet, check_declared_length) (false, refl, λ e. cc)
    ]
  where
    both :
        total ≤ length bytes
        → Returns (DeclaredEnd bytes total) (
            read bytes (total - 2) >>= λ a.
            read bytes (total - 1) >>= λ b. some ((a == stop_byte1) && (b == stop_byte2)))
    both fits =
        Returns-bind _ (read bytes (total - 2)) _ (read-Defined bytes (total - 2) (omega arith))
          λ a ea.
            Returns-bind _ (read bytes (total - 1)) _ (read-Defined bytes (total - 1) (omega arith))
              λ b eb.
                let next : suc (total - 2) ≡ total - 1 = omega arith in
                (_, refl, λ e. (fits, (ground arith, rw next (ground arith))))

module _ {D : Type 0} (platform : Platform D) where
  -- Once the end of the frame is known, the answer is a frame of that length.
  abbrev IsFrameOf : ℕ → ParseResult D → Type 0
  IsFrameOf total r = (r.result ≡ ok) × (r.consumed_bytes ≡ total)

  answer-IsFrameOf :
      (total serial : ℕ) (mismatch : Bool) (packet : Option (ParsedPacket D))
      → IsFrameOf total (answer total serial mismatch packet)
  unfolding answer
  answer-IsFrameOf total serial mismatch none = (refl, refl)
  answer-IsFrameOf total serial mismatch (some p) = (refl, refl)

  decode_packet-Returns :
      (bytes : List ℕ) (total type_offset content_length : ℕ)
      → 2 ≤ type_offset
      → type_offset + 1 + content_length + 4 ≤ length bytes
      → Returns (IsFrameOf total) (decode_packet platform bytes total type_offset content_length)
  unfolding decode_packet
  decode_packet-Returns bytes total t n low h =
      Returns-bind _ (read bytes t) _ (read-Defined bytes t (omega arith)) λ type_byte _.
        Returns-bind _ (subspan bytes (t + 1) n) _ (_, subspan-eq bytes (t + 1) n (omega arith))
          λ content _.
            Returns-bind _ (read_u16 bytes (t + 1 + n)) _
              (read_u16-Defined bytes (t + 1 + n) (omega arith))
              λ serial _.
                Returns-bind _ (read_u16 bytes (t + 1 + n + 2)) _
                  (read_u16-Defined bytes (t + 1 + n + 2) (omega arith))
                  λ received _.
                    Returns-bind _ (subspan bytes 2 (t + 1 + n + 2 - 2)) _
                      (_, subspan-eq bytes 2 (t + 1 + n + 2 - 2) (omega arith))
                      λ covered _.
                        Returns-bind _ (parse_content platform type_byte content serial) _
                          (parse_content-Defined platform type_byte content serial)
                          λ packet _. (_, refl, answer-IsFrameOf total serial _ packet)

  decode_frame-Returns :
      (bytes : List ℕ) (total width length_value : ℕ)
      → Returns (IsFrameOf total) (decode_frame platform bytes total width length_value)
  unfolding decode_frame frame
  decode_frame-Returns bytes total width length_value =
      elim (Bool-cases (leb 5 length_value && leb (2 + width + 1 + n + 2 + 2) (length bytes))) [
        | inl fits ↦
            rw (fits, decode_frame)
              (decode_packet-Returns bytes total (2 + width) n (omega arith) (ground arith))
        | inr not_fit ↦ rw (not_fit, decode_frame) (_, refl, (refl, refl))
      ]
    where
      n : ℕ
      n = if ltb length_value 5 then 0 else length_value - 5

  -- A stop marker does not stand on the start marker.
  stop_after_start : (bytes : List ℕ) (i : ℕ) → StartsFrame bytes → StopAt bytes i → 2 ≤ i
  stop_after_start bytes i s p = ground arith

  declared_or_found :
      (bytes : List ℕ) (declared total : ℕ) (b : Bool)
      → StartsFrame bytes
      → 4 ≤ declared
      → DeclaredEnd bytes declared b
      → (if b then some declared else find_stop bytes 0) ≡ some total
      → (4 ≤ total) × (total ≤ length bytes) × StopAt bytes (total - 2)
  declared_or_found bytes declared total true s low h e =
      let same : declared ≡ total = ground arith in rw (← same) (low, (h refl).0, (h refl).1)
  declared_or_found bytes declared total false s low h e =
      let f = find_stop-found bytes total e in
      let at_start : f.start ≡ total - 2 = omega (arith, f.ends) in
      (
        omega (arith, f.ends, stop_after_start bytes f.start s f.found),
        f.inside,
        rw at_start at f.found,
      )

  parse_delimited-Returns :
      (extended : Bool) (bytes : List ℕ)
      → StartsFrame bytes
      → 2 + length_field_width extended ≤ length bytes
      → Returns (Outcome bytes) (parse_delimited platform extended bytes)
  unfolding parse_delimited no_frame
  parse_delimited-Returns extended bytes s h =
      Returns-bind _ (read_length_value extended bytes) _
        (read_length_value-Defined extended bytes h)
        λ v _.
          Returns-then (DeclaredEnd bytes (2 + length_field_width extended + v + 2)) _
            (check_declared_length bytes v (2 + length_field_width extended + v + 2)) _
            (check_declared_length-Returns bytes v (2 + length_field_width extended + v + 2)
              (omega arith))
            λ checks_out end.
              elim (Option-cases (
                if checks_out
                then some (2 + length_field_width extended + v + 2)
                else find_stop bytes 0)) [
                  | inl e ↦
                      rw e
                        (_, refl, waiting refl (inr s) (find_stop-missing bytes 0 (ground arith)))
                  | inr (total, e) ↦ rw e (
                      let (r, er, (is_ok, size)) =
                        decode_frame-Returns bytes total (length_field_width extended) v in
                      let (low, inside, stop) =
                        declared_or_found bytes _ total checks_out s (omega arith) end e in
                      (r, er, framed is_ok s (rw size low) (rw size inside) (rw size stop)))
                ]

  no_stop_short : (bytes : List ℕ) → length bytes < 2 → (i : ℕ) → ¬ StopAt bytes i
  no_stop_short bytes h i p = omega (arith, lt-length bytes (suc i) p.1)

  -- A buffer that ends in the length field holds no stop marker.
  no_stop_in_header :
      (bytes : List ℕ) → StartsFrame bytes → length bytes < 4 → (i : ℕ) → ¬ StopAt bytes i
  no_stop_in_header bytes s h i p =
      omega (arith, lt-length bytes (suc i) p.1, stop_after_start bytes i s p)

  start_marker-StartsFrame :
      (bytes : List ℕ) (b0 b1 : ℕ) (extended : Bool)
      → get_elem? bytes 0 ≡ some b0
      → get_elem? bytes 1 ≡ some b1
      → start_marker b0 b1 ≡ some extended
      → StartsFrame bytes
  unfolding start_marker
  start_marker-StartsFrame bytes b0 b1 extended e0 e1 e = ground arith

  not_StartsFrame :
      (bytes : List ℕ) (b0 b1 : ℕ)
      → get_elem? bytes 0 ≡ some b0
      → get_elem? bytes 1 ≡ some b1
      → start_marker b0 b1 ≡ none
      → ¬ StartsFrame bytes
  unfolding start_marker
  not_StartsFrame bytes b0 b1 e0 e1 e s = ground arith

  after_start :
      (bytes : List ℕ) (b0 b1 : ℕ) (extended : Bool)
      → get_elem? bytes 0 ≡ some b0
      → get_elem? bytes 1 ≡ some b1
      → start_marker b0 b1 ≡ some extended
      → Returns (Outcome bytes) (elim (ltb (length bytes) (2 + length_field_width extended)) [
        | true ↦ some (no_frame incomplete)
        | false ↦ parse_delimited platform extended bytes
      ])
  unfolding no_frame
  after_start bytes b0 b1 extended e0 e1 e =
      let s = start_marker-StartsFrame bytes b0 b1 extended e0 e1 e in
      elim (Bool-cases (ltb (length bytes) (2 + length_field_width extended))) [
        | inl no_length ↦ rw no_length (
          _,
          refl,
          waiting refl (inr s)
              (no_stop_in_header bytes s (unfold length_field_width in ground arith)),
        )
        | inr has_length ↦ rw has_length (parse_delimited-Returns extended bytes s (ground arith))
      ]

  -- `parse_frame` has a result on every buffer (so it reads no byte outside it), and the result is
  -- one of three: a frame of at least 4 bytes that lies in the buffer, begins with a start marker
  -- and ends with a stop marker; a request for more bytes, only where the buffer holds no stop marker
  -- and is shorter than 2 bytes or begins with a start marker; a refusal, only of a buffer of at
  -- least 2 bytes that does not begin with a start marker.
  pub parse_frame-Outcome : (bytes : List ℕ) → Returns (Outcome bytes) (parse_frame platform bytes)
  unfolding parse_frame no_frame
  parse_frame-Outcome bytes = elim (Bool-cases (ltb (length bytes) 2)) [
    | inl short ↦
        rw (short, parse_frame)
          (_, refl, waiting refl (inl (ground arith)) (no_stop_short bytes (ground arith)))
    | inr long ↦
        rw (long, parse_frame)
          (Returns-bind _ (read bytes 0) _ (read-Defined bytes 0 (ground arith)) λ b0 e0.
            Returns-bind _ (read bytes 1) _ (read-Defined bytes 1 (ground arith)) λ b1 e1.
              elim (Option-cases (start_marker b0 b1)) [
                | inl e ↦
                    rw e
                      (_, refl, rejected refl (ground arith) (not_StartsFrame bytes b0 b1 e0 e1 e))
                | inr (extended, e) ↦ rw e (after_start bytes b0 b1 extended e0 e1 e)
              ])
  ]
