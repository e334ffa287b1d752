-- ===== src/Filter/Render.antt =====
-- Printing a filter back in the wire syntax: the `Display` of `Filter` and `FilterChain`.
use aprsr.Prelude.{
  List, [], ◌∷◌, ◌++◌, Option, none, some, ◌&&◌, if◌then◌else◌, is_empty, is_some_and,
}
use aprsr.Bytes.{Bytes, codes}
use aprsr.Geo.{Floats}
use aprsr.Aprs.{PacketType, from_filter_letter, contains}
use aprsr.Filter.{
  Filter, range, prefix, budlist, object, of_type, symbol, digipeater, area, entry, group, unproto,
  q_construct, my_range, friend_range, FilterEntry, FilterChain,
}

-- `/item` for every item.
unfoldable pub joined : Bytes → List Bytes → Bytes
joined code [] = code
joined code (item ∷ items) = joined (code ++ b'/' ∷ item) items

-- The letters that `types` contains, in the order of `poimqstunw`.
unfoldable pub shown_letters : PacketType → Bytes → Bytes
shown_letters types [] = []
shown_letters types (letter ∷ letters) =
    let rest = shown_letters types letters in
    if is_some_and (from_filter_letter letter) (contains types) then letter ∷ rest else rest

module _ (floats : Floats) where
  unfoldable pub show_near : Option (Bytes × floats.f64) → Bytes
  show_near none = []
  show_near (some (call, km)) = joined [] (call ∷ floats.show_f64 km ∷ [])

  -- `Display for Filter`
  unfoldable pub show_filter : Filter floats.f64 → Bytes
  show_filter (range lat lon km) =
      joined (codes "r") (floats.show_f64 lat ∷ floats.show_f64 lon ∷ floats.show_f64 km ∷ [])
  show_filter (prefix items) = joined (codes "p") items
  show_filter (budlist items) = joined (codes "b") items
  show_filter (object items) = joined (codes "o") items
  show_filter (digipeater items) = joined (codes "d") items
  show_filter (entry items) = joined (codes "e") items
  show_filter (group items) = joined (codes "g") items
  show_filter (unproto items) = joined (codes "u") items
  show_filter (of_type types near) =
      codes "t/" ++ shown_letters types (codes "poimqstunw") ++ show_near near
  show_filter (symbol primary alternate overlay) =
      if is_empty overlay && is_empty alternate
      then joined (codes "s") (primary ∷ [])
      else if is_empty overlay
      then joined (codes "s") (primary ∷ alternate ∷ [])
      else joined (codes "s") (primary ∷ alternate ∷ overlay ∷ [])
  show_filter (area n w s e) =
      joined (codes "a")
        (floats.show_f64 n ∷ floats.show_f64 w ∷ floats.show_f64 s ∷ floats.show_f64 e ∷ [])
  show_filter (q_construct constructs igate_positions) =
      if igate_positions
      then joined (codes "q") (constructs ∷ codes "I" ∷ [])
      else joined (codes "q") (constructs ∷ [])
  show_filter (my_range km) = joined (codes "m") (floats.show_f64 km ∷ [])
  show_filter (friend_range callsign km) = joined (codes "f") (callsign ∷ floats.show_f64 km ∷ [])

  -- One entry, its `-` included.
  unfoldable pub show_entry : FilterEntry floats.f64 → Bytes
  show_entry e = if e.negated then b'-' ∷ show_filter e.filter else show_filter e.filter

  -- `Display for FilterChain`: the entries, a space between two.
  unfoldable pub show_entries : List (FilterEntry floats.f64) → Bytes
  show_entries [] = []
  show_entries (e ∷ []) = show_entry e
  show_entries (e ∷ f ∷ es) = show_entry e ++ 0x20 ∷ show_entries (f ∷ es)

  unfoldable pub show_chain : FilterChain floats.f64 → Bytes
  show_chain chain = show_entries chain.entries
