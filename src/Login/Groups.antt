-- ===== src/Login/Groups.antt =====
-- What the optional groups of a login line mean.
use aprsr.Prelude.{ℕ, List, [], ◌∷◌, some, ok, ◌≡◌, refl, arith}
use aprsr.Bytes.{Bytes, join_spaces}
use aprsr.Numbers.{parse_u16}
use aprsr.Login.{
  LoginRequest, vers, udp, filter_command, other, keyword, nonempty, read_port, groups,
}

-- A group of words: the software, the UDP port, or a word that is no keyword.
pub data Group : Type 0 where
  software_group : (word name version : Bytes) → keyword word ≡ vers → Group
  udp_group :
      (word text : Bytes) (port : ℕ) → keyword word ≡ udp → parse_u16 text ≡ some port → Group
  ignored_word : (word : Bytes) → keyword word ≡ other → Group

abbrev pub words_of : List Group → List Bytes → List Bytes
words_of [] behind = behind
words_of (software_group word name version _ ∷ gs) behind =
    word ∷ name ∷ version ∷ words_of gs behind
words_of (udp_group word text port _ _ ∷ gs) behind = word ∷ text ∷ words_of gs behind
words_of (ignored_word word _ ∷ gs) behind = word ∷ words_of gs behind

abbrev pub meaning : List Group → LoginRequest → LoginRequest
meaning [] request = request
meaning (software_group word name version _ ∷ gs) request =
    meaning gs (record request { software = some name; software_version = some version })
meaning (udp_group word text port _ _ ∷ gs) request =
    meaning gs (record request { udp_port = some port })
meaning (ignored_word word _ ∷ gs) request = meaning gs request

groups-behind :
    (gs : List Group) (behind : List Bytes) (request : LoginRequest)
    → groups 0 (words_of gs behind) request ≡ groups 0 behind (meaning gs request)
unfolding groups read_port
groups-behind [] behind request = refl
groups-behind (software_group word name version k ∷ gs) behind request = ground (
  arith,
  k,
  groups-behind gs behind
      (record request { software = some name; software_version = some version }),
)
groups-behind (udp_group word text port k p ∷ gs) behind request =
    ground (arith, k, p, groups-behind gs behind (record request { udp_port = some port }))
groups-behind (ignored_word word k ∷ gs) behind request =
    ground (arith, k, groups-behind gs behind request)

-- The words behind the passcode are read group by group: the last software and the last UDP port
-- count, words that are no keyword are passed over, and the words behind `filter`, joined by spaces,
-- are the filter, whatever keywords stand among them.
pub groups-meaning :
    (gs : List Group) (word : Bytes) (behind : List Bytes) (request : LoginRequest)
    → keyword word ≡ filter_command
    → (groups 0 (words_of gs []) request ≡ ok (meaning gs request))
      × (groups 0 (words_of gs (word ∷ behind)) request
          ≡ ok (record (meaning gs request) { filter = nonempty (join_spaces behind) }))
unfolding groups
groups-meaning gs word behind request k =
    let f = groups-behind gs (word ∷ behind) request in
    (groups-behind gs [] request, ground (arith, f, k))
