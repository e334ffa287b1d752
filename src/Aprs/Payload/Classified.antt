-- ===== src/Aprs/Payload/Classified.antt =====
-- What the parser of the information field says of a packet (`parse` of
-- crates/aprsr-core/src/aprs/mod.rs): its categories agree with the fields that it fills.
use aprsr.Prelude.{
  ℕ, ◌<◌, Option, none, some, Bool, true, ◌||◌, ◌==◌, if◌then◌else◌, ◌≡◌, refl, sym, ap, subst, ◌∙◌,
  ◌⊎◌, inl, inr, arith, is_some, is_some_and, get_elem?,
}
use aprsr.Geo.{Floats, Position}
use aprsr.Packet.{Packet}
use aprsr.Aprs.{PacketType, union, contains, intersects, ParsedPayload}
use aprsr.Aprs.Symbols.{Symbol, is_weather}
use aprsr.Aprs.Payload.{
  message_type, nws_type, weather_type, is_nws, mark_weather, mark_nws, parse_payload,
}
use aprsr.Aprs.Payload.Found.{IsOnEarth}
use aprsr.Aprs.Payload.Shaped.{
  Together, absent, present, Category, none_of_them, position, object, message, bits, locates,
  names, addresses, is_report, Shaped, by_identifier-Shaped,
}

-- The categories after the two marks.
abbrev marked : PacketType → Bool → Bool → PacketType
marked types weather_symbol nws =
    let reported = if weather_symbol then union types weather_type else types in
    if nws then union reported nws_type else reported

abbrev pub placing_types : PacketType
placing_types = 7

abbrev pub naming_types : PacketType
naming_types = 6

module _ (floats : Floats) where
  -- The result of the parse of a packet whose information field begins with `dti`.
  pub record IsClassified (packet : Packet) (dti : ℕ) (out : ParsedPayload floats.f64)
      : Type 0 where
    pub together : is_some out.symbol ≡ is_some out.position
    pub on_earth : IsOnEarth floats out.position
    pub placed : (out.position ≡ none) ⊎ (intersects out.types placing_types ≡ true)
    pub named : (out.object_name ≡ none) ⊎ (intersects out.types naming_types ≡ true)
    pub addressed : (out.addressee ≡ none) ⊎ (contains out.types message_type ≡ true)
    pub reports :
        contains out.types weather_type ≡ (dti == b'_' || is_some_and out.symbol is_weather)
    pub warns : contains out.types nws_type ≡ is_nws floats packet out
    pub bounded : out.types < 1024

placing :
    (c : Category) (w n : Bool)
    → locates c ≡ true
    → intersects (marked (bits c) w n) placing_types ≡ true
unfolding intersects union
placing position true true h = refl
placing _ _ _ h = ground arith

naming :
    (c : Category) (w n : Bool)
    → names c ≡ true
    → intersects (marked (bits c) w n) naming_types ≡ true
unfolding intersects union
naming object true true h = refl
naming _ _ _ h = ground arith

addressing :
    (c : Category) (w n : Bool)
    → addresses c ≡ true
    → contains (marked (bits c) w n) message_type ≡ true
unfolding contains union
addressing message true true h = refl
addressing _ _ _ h = ground arith

reporting :
    (c : Category) (w n : Bool) → contains (marked (bits c) w n) weather_type ≡ (is_report c || w)
unfolding contains union
reporting none_of_them true true = refl
reporting _ _ _ = ground arith

warning : (c : Category) (w n : Bool) → contains (marked (bits c) w n) nws_type ≡ n
unfolding contains union
warning none_of_them true true = refl
warning _ _ _ = ground arith

bounding : (c : Category) (w n : Bool) → marked (bits c) w n < 1024
unfolding union
bounding none_of_them true true = omega arith
bounding _ _ _ = ground arith

module _ (floats : Floats) where
  paired :
      {p : Option (Position floats.f64)} {s : Option Symbol}
      → Together floats p s
      → (is_some s ≡ is_some p) × IsOnEarth floats p
  paired absent = (refl, tt)
  paired (present p s e) = (refl, e)

  marks :
      (packet : Packet) (out : ParsedPayload floats.f64)
      → mark_nws floats packet (mark_weather floats out) ≡ record out {
        types = marked out.types (is_some_and out.symbol is_weather) (is_nws floats packet out);
      }
  unfolding mark_nws mark_weather is_nws
  marks packet out = ground arith

  Shaped-IsClassified :
      (packet : Packet) (dti : ℕ) (out : ParsedPayload floats.f64)
      → Shaped floats dti out
      → IsClassified floats packet dti (mark_nws floats packet (mark_weather floats out))
  unfolding is_nws
  Shaped-IsClassified packet dti out s =
      let w = is_some_and out.symbol is_weather in
      let n = is_nws floats packet out in
      subst (IsClassified floats packet dti) (sym (marks packet out)) (record {
        together = (paired s.together).0;
        on_earth = (paired s.together).1;
        placed = elim s.placed [
          | inl e ↦ inl e
          | inr e ↦ inr (rw s.types_are (placing s.category w n e))
        ];
        named = elim s.named [
          | inl e ↦ inl e
          | inr e ↦ inr (rw s.types_are (naming s.category w n e))
        ];
        addressed = elim s.addressed [
          | inl e ↦ inl e
          | inr e ↦ inr (rw s.types_are (addressing s.category w n e))
        ];
        reports = rw s.types_are (reporting s.category w n ∙ ap (λ b. b || w) s.reports);
        warns = rw s.types_are (warning s.category w n);
        bounded = rw s.types_are (bounding s.category w n);
      })

  -- The parse of a non-empty information field agrees with itself: it has a symbol exactly where it has
  -- a position, which is on earth; a position, a name and an addressee only come with the categories
  -- that carry them; it is a weather report exactly if its identifier or its symbol says so, and a
  -- notice of the weather service exactly if its source, addressee or name says so; and no category
  -- outside the ten is ever set.
  pub parse_payload-IsClassified :
      (packet : Packet) (dti : ℕ)
      → get_elem? packet.payload 0 ≡ some dti
      → IsClassified floats packet dti (parse_payload floats packet)
  unfolding parse_payload
  parse_payload-IsClassified packet dti h =
      rw (h, parse_payload)
        (Shaped-IsClassified packet dti _ (by_identifier-Shaped floats packet dti))
