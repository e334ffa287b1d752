-- ===== src/Digipath/Duplicates.antt =====
-- `first_duplicate` finds no callsign exactly where the stations of the path differ.
use aprsr.Prelude.{List, [], ◌∷◌, true, false, not, any, keep, All, ◌≡◌}
use aprsr.Bytes.{eq_ignore_ascii_case}
use aprsr.Digipath.{Hop, Digipath, hops, is_generic_alias}

abbrev pub SameCall : Hop → Hop → Type 0
SameCall a b = eq_ignore_ascii_case a.call b.call ≡ true

-- No two of the hops have the same callsign.
abbrev pub Distinct : List Hop → Type 0
Distinct [] = Unit
Distinct (h ∷ hs) = All (λ (k : Hop). eq_ignore_ascii_case h.call k.call ≡ false) hs × Distinct hs

-- The hops that name a station.
abbrev pub stations : Digipath → List Hop
stations path = keep (λ (hop : Hop). not (is_generic_alias hop.call)) (hops path)

abbrev New : List Hop → List Hop → Type 0
New earlier =
    All (λ (h : Hop). any (λ (prev : Hop). eq_ignore_ascii_case prev.call h.call) earlier ≡ false)
