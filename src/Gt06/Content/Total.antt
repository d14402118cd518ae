-- ===== src/Gt06/Content/Total.antt =====
-- Every read of `parse_content` is in bounds.
use karshipta.Common.{
  ℕ, ◌+◌, ◌≤◌, ◌<◌, ◌≡◌, refl, inl, inr, List, none, some, arith, ltb, ◌==◌, Bool-cases, length,
  get_elem?-some, take, drop, Defined, Defined-bind,
}
use karshipta.Gt06.Types.{Platform}
use karshipta.Gt06.Content.{
  read, subspan, read_u16, read_u32, parse_location, parse_login, parse_gps_location, parse_content,
}

pub read-Defined : (bytes : List ℕ) (i : ℕ) → i < length bytes → Defined (read bytes i)
read-Defined bytes i h = get_elem?-some bytes i h

pub read_u16-Defined : (bytes : List ℕ) (i : ℕ) → i + 1 < length bytes → Defined (read_u16 bytes i)
unfolding read_u16
read_u16-Defined bytes i h =
    Defined-bind (read bytes i) _ (read-Defined bytes i (omega arith))
      λ high. Defined-bind (read bytes (i + 1)) _ (read-Defined bytes (i + 1) h) λ low. (_, refl)

read_u32-Defined : (bytes : List ℕ) (i : ℕ) → i + 3 < length bytes → Defined (read_u32 bytes i)
unfolding read_u32
read_u32-Defined bytes i h =
    Defined-bind (read bytes i) _ (read-Defined bytes i (omega arith)) λ b0.
      Defined-bind (read bytes (i + 1)) _ (read-Defined bytes (i + 1) (omega arith)) λ b1.
        Defined-bind (read bytes (i + 2)) _ (read-Defined bytes (i + 2) (omega arith))
          λ b2. Defined-bind (read bytes (i + 3)) _ (read-Defined bytes (i + 3) h) λ b3. (_, refl)

pub subspan-eq :
    (bytes : List ℕ) (offset count : ℕ)
    → offset + count ≤ length bytes
    → subspan bytes offset count ≡ some (take count (drop offset bytes))
unfolding subspan
subspan-eq bytes offset count h = ground arith

module _ {D : Type 0} (platform : Platform D) where
  parse_location-Defined :
      (content : List ℕ) → 19 ≤ length content → Defined (parse_location platform content)
  unfolding parse_location
  parse_location-Defined content h =
      Defined-bind (read content 7) _ (read-Defined content 7 (omega arith)) λ s.
        Defined-bind (read_u32 content 8) _ (read_u32-Defined content 8 (omega arith)) λ lat.
          Defined-bind (read_u32 content 12) _ (read_u32-Defined content 12 (omega arith)) λ lon.
            Defined-bind (read_u16 content 17) _ (read_u16-Defined content 17 (omega arith)) λ fl.
              Defined-bind (read content 0) _ (read-Defined content 0 (omega arith)) λ y.
                Defined-bind (read content 1) _ (read-Defined content 1 (omega arith)) λ mo.
                  Defined-bind (read content 2) _ (read-Defined content 2 (omega arith)) λ d.
                    Defined-bind (read content 3) _ (read-Defined content 3 (omega arith)) λ hr.
                      Defined-bind (read content 4) _ (read-Defined content 4 (omega arith)) λ mi.
                        Defined-bind (read content 5) _ (read-Defined content 5 (omega arith))
                          λ se. (_, refl)

  parse_login-Defined :
      (content : List ℕ) (serial : ℕ) → Defined (parse_login platform content serial)
  unfolding parse_login
  parse_login-Defined content serial = elim (Bool-cases (ltb (length content) 8)) [
    | inl short ↦ rw (short, parse_login) (none, refl)
    | inr long ↦ rw (long, parse_login, subspan-eq content 0 8 (ground arith)) (_, refl)
  ]

  parse_gps_location-Defined :
      (content : List ℕ) (serial : ℕ) → Defined (parse_gps_location platform content serial)
  unfolding parse_gps_location
  parse_gps_location-Defined content serial = elim (Bool-cases (ltb (length content) 19)) [
    | inl short ↦ rw (short, parse_gps_location) (none, refl)
    | inr long ↦
        rw (long, parse_gps_location)
          (Defined-bind (read content 6) _ (read-Defined content 6 (ground arith)) λ v.
            elim (Bool-cases (v == 0)) [
              | inl zero_length ↦ rw zero_length (none, refl)
              | inr valid ↦ rw valid (
                  Defined-bind (parse_location platform content) _
                    (parse_location-Defined content (ground arith)) λ fix. (_, refl))
            ])
  ]

  pub parse_content-Defined :
      (type_byte : ℕ) (content : List ℕ) (serial : ℕ)
      → Defined (parse_content platform type_byte content serial)
  unfolding parse_content
  parse_content-Defined type_byte content serial = elim (Bool-cases (type_byte == 0x01)) [
    | inl is_login ↦ rw is_login (parse_login-Defined content serial)
    | inr not_login ↦ rw not_login (elim (Bool-cases (type_byte == 0x10)) [
      | inl is_gps ↦ rw is_gps (parse_gps_location-Defined content serial)
      | inr not_gps ↦ rw not_gps (elim (Bool-cases (type_byte == 0x23)) [
        | inl beat ↦ rw beat (_, refl)
        | inr other ↦ rw other (_, refl)
      ])
    ])
  ]
