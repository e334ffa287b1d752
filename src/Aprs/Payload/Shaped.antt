-- ===== src/Aprs/Payload/Shaped.antt =====
-- What the arms of `match dti` in `parse` (crates/aprsr-core/src/aprs/mod.rs) make of an empty result.
use aprsr.Prelude.{
  ℕ, [], Option, none, some, Bool, true, false, ◌||◌, ◌==◌, ◌≡◌, refl, sym, subst, ◌∙◌, ◌⊎◌, inl,
  inr, arith, if-elim,
}
use aprsr.Bytes.{Bytes, unwrap_or}
use aprsr.Geo.{Floats, Position}
use aprsr.Packet.{Packet}
use aprsr.Aprs.{PacketType, position_type, union, ParsedPayload}
use aprsr.Aprs.Symbols.{Symbol}
use aprsr.Aprs.Encodings.{parse_mice}
use aprsr.Aprs.Payload.{
  item_type, message_type, default, add_type, set_position, apply_position, apply_item,
  by_identifier, str_from, is_mice,
}
use aprsr.Aprs.Payload.Found.{
  IsOnEarth, Found, located, nothing, parse_compressed-Found, parse_uncompressed-Found,
  parse_mice-Found,
}

module _ (floats : Floats) where
  -- A position and a symbol, or neither.
  pub data Together : Option (Position floats.f64) → Option Symbol → Type 0 where
    absent : Together none none
    present :
        (p : Position floats.f64) (s : Symbol)
        → IsOnEarth floats (some p)
        → Together (some p) (some s)

  abbrev Parsed : Type 0
  Parsed = ParsedPayload floats.f64

  -- The categories, the name and the addressee of a result, and how it is placed.
  record Fits (types : PacketType) (name addressee : Option Bytes) (out : Parsed) : Type 0 where
    types_are : out.types ≡ types
    name_is : out.object_name ≡ name
    addressee_is : out.addressee ≡ addressee
    together : Together out.position out.symbol

  module _ (types : PacketType) (name addressee : Option Bytes) where
    set_position-Fits :
        (out other : Parsed) (found : Option (Position floats.f64 × Symbol))
        → Found floats found
        → Fits types name addressee out
        → Fits types name addressee other
        → Fits types name addressee (unwrap_or (set_position floats out found) other)
    unfolding set_position
    set_position-Fits out other none nothing f g = g
    set_position-Fits out other (some (p, s)) (located _ _ e) f g = record {
      types_are = f.types_are;
      name_is = f.name_is;
      addressee_is = f.addressee_is;
      together = present p s e;
    }

    apply_position-Fits :
        (text : Bytes) (out : Parsed)
        → Fits types name addressee out
        → Fits types name addressee (apply_position floats text out)
    unfolding apply_position
    apply_position-Fits text out f =
        set_position-Fits out _ _ (parse_uncompressed-Found floats text) f
          (set_position-Fits out _ _ (parse_compressed-Found floats text) f f)

-- The category of a data type identifier.
pub data Category : Type 0 where
  none_of_them position object item message query status telemetry user_defined weather : Category

abbrev pub bits : Category → PacketType
bits none_of_them = 0
bits position = 1
bits object = 2
bits item = 4
bits message = 8
bits query = 16
bits status = 32
bits telemetry = 64
bits user_defined = 128
bits weather = 512

abbrev pub locates : Category → Bool
locates position = true
locates object = true
locates item = true
locates _ = false

abbrev pub names : Category → Bool
names object = true
names item = true
names _ = false

abbrev pub addresses : Category → Bool
addresses message = true
addresses _ = false

abbrev pub is_report : Category → Bool
is_report weather = true
is_report _ = false

module _ (floats : Floats) where
  -- What the arms of `match dti` make of an empty result.
  pub record Shaped (dti : ℕ) (out : ParsedPayload floats.f64) : Type 0 where
    pub category : Category
    pub types_are : out.types ≡ bits category
    pub reports : is_report category ≡ (dti == b'_')
    pub placed : (out.position ≡ none) ⊎ (locates category ≡ true)
    pub named : (out.object_name ≡ none) ⊎ (names category ≡ true)
    pub addressed : (out.addressee ≡ none) ⊎ (addresses category ≡ true)
    pub together : Together floats out.position out.symbol

  -- The result of an arm that only sets a category.
  bare :
      (dti : ℕ) (c : Category) (out : ParsedPayload floats.f64)
      → out ≡ record (default floats) { types = bits c }
      → is_report c ≡ (dti == b'_')
      → Shaped dti out
  unfolding default
  bare dti c out e r = subst (Shaped dti) (sym e) (record {
    category = c;
    types_are = refl;
    reports = r;
    placed = inl refl;
    named = inl refl;
    addressed = inl refl;
    together = absent;
  })

  module _ (dti : ℕ) (c : Category) (locating : locates c ≡ true)
      (other : is_report c ≡ (dti == b'_')) where
    -- The result of an arm that looks for a position.
    fitted :
        {name : Option Bytes} {out : ParsedPayload floats.f64}
        → (name ≡ none) ⊎ (names c ≡ true)
        → Fits floats (bits c) name none out
        → Shaped dti out
    fitted n f = record {
      category = c;
      types_are = f.types_are;
      reports = other;
      placed = inr locating;
      named = elim n [ inl e ↦ inl (f.name_is ∙ e) | inr e ↦ inr e ];
      addressed = inl f.addressee_is;
      together = f.together;
    }

  starts :
      (types : PacketType) (name : Option Bytes)
      → Fits floats types name none (record (default floats) { types = types; object_name = name })
  unfolding default
  starts types name = record {
    types_are = refl;
    name_is = refl;
    addressee_is = refl;
    together = absent;
  }

  item-Shaped :
      (dti : ℕ) (split : Option (Bytes × Bytes))
      → false ≡ (dti == b'_')
      → Shaped dti (apply_item floats split (add_type floats item_type (default floats)))
  unfolding apply_item union default
  item-Shaped dti none r = bare dti item _ refl r
  item-Shaped dti (some (name, rest)) r =
      fitted dti item refl r (inr refl)
        (apply_position-Fits floats 4 (some name) none rest _ (starts 4 (some name)))

  mice-Shaped :
      (dti : ℕ) (destination text : Bytes)
      → false ≡ (dti == b'_')
      → Shaped dti (
          unwrap_or
            (set_position floats
              (add_type floats position_type (default floats))
              (parse_mice floats destination text))
            (add_type floats position_type (default floats)))
  unfolding union default
  mice-Shaped dti destination text r = fitted dti position refl r (inl refl) (
      set_position-Fits floats 1 none none _ _ _ (parse_mice-Found floats destination text)
        (starts 1 none) (starts 1 none))

  message-Shaped :
      (dti : ℕ) (addressee : Option Bytes)
      → false ≡ (dti == b'_')
      → Shaped dti
          (record (add_type floats message_type (default floats)) { addressee = addressee })
  unfolding union default
  message-Shaped dti addressee r = record {
    category = message;
    types_are = refl;
    reports = r;
    placed = inl refl;
    named = inl refl;
    addressed = inr refl;
    together = absent;
  }

  pub by_identifier-Shaped :
      (packet : Packet) (dti : ℕ) → Shaped dti (by_identifier floats packet dti (default floats))
  unfolding by_identifier union default
  by_identifier-Shaped packet dti =
      if-elim (Shaped dti) (dti == b'!' || dti == b'=') _ _
        (λ h.
          fitted dti position refl (ground arith) (inl refl)
            (apply_position-Fits floats 1 none none _ _ (starts 1 none)))
        λ _.
          if-elim (Shaped dti) (dti == b'/' || dti == b'@') _ _
            (λ h.
              fitted dti position refl (ground arith) (inl refl)
                (apply_position-Fits floats 1 none none _ _ (starts 1 none)))
            λ _.
              if-elim (Shaped dti) (dti == b';') _ _
                (λ h.
                  fitted dti object refl (ground arith) (inr refl)
                    (apply_position-Fits floats 2 _ none _ _ (starts 2 _)))
                λ _.
                  if-elim (Shaped dti) (dti == b')') _ _ (λ h. item-Shaped dti _ (ground arith))
                    λ _.
                      if-elim (Shaped dti) (dti == b':') _ _
                        (λ h. message-Shaped dti _ (ground arith))
                        λ _.
                          if-elim (Shaped dti) (dti == b'?') _ _
                            (λ h. bare dti query _ refl (ground arith))
                            λ _.
                              if-elim (Shaped dti) (dti == b'>') _ _
                                (λ h. bare dti status _ refl (ground arith))
                                λ _.
                                  if-elim (Shaped dti) (dti == b'T') _ _
                                    (λ h.
                                      if-elim (Shaped dti) _ _ _
                                        (λ _. bare dti telemetry _ refl (ground arith))
                                        (λ _. bare dti none_of_them _ refl (ground arith)))
                                    λ _.
                                      if-elim (Shaped dti) (dti == b'{') _ _
                                        (λ h. bare dti user_defined _ refl (ground arith))
                                        λ _.
                                          if-elim (Shaped dti) (dti == b'_') _ _
                                            (λ h. bare dti weather _ refl (ground arith))
                                            λ other.
                                              if-elim (Shaped dti) (is_mice dti) _ _
                                                (λ h.
                                                  mice-Shaped dti packet.destination
                                                    (unwrap_or (str_from 1 packet.payload) [])
                                                    (ground arith))
                                                (λ _. bare dti none_of_them _ refl (ground arith))
