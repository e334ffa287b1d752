-- ===== src/Tests/Settings.antt =====
-- The configuration, the information field and the cache of positions at concrete inputs.
use aprsr.Prelude.{
  ℕ, inl, Option, [], ◌∷◌, ◌++◌, none, some, true, false, map, ◌≡◌, ◌↔◌, refl, arith, ok,
}
use aprsr.Prelude.Int.{pos}
use aprsr.Bytes
use aprsr.Callsign
use aprsr.Aprs
use aprsr.Filter.Parse
use aprsr.Bytes.{Bytes, codes, str_eq, lines, join_spaces}
use aprsr.Digipath
use aprsr.Packet.{Packet}
use aprsr.Aprs.Encodings.{parse_uncompressed, parse_compressed}
use aprsr.Aprs.Encodings.Written.{shown, blank, Report, written}
use aprsr.Geo.{Position}
use aprsr.Aprs.Symbols.{Symbol}
use aprsr.Aprs.Encodings.Compressed.{compressed, parse_compressed-compressed}
use aprsr.Aprs.Encodings.Print.{IsPlace, Reported, parse_uncompressed-written}
use aprsr.Aprs.Payload.{parse_payload}
use aprsr.Aprs.Payload.Classified.{IsClassified, parse_payload-IsClassified}
use aprsr.Config.{
  Addresses, Config, full_feed, igate, tcp, default_limits, default_database, validate,
  check_listeners, check_filter,
}
use aprsr.Config.Runnable.{IsRunnable, validate_iff}
use aprsr.Config.Aprsc.{tokenize}
use aprsr.Config.Aprsc.Tokens.{quoted, remark, tokenize-quoted}
use aprsr.Config.Aprsc.Convert.{convert}
use aprsr.Config.Aprsc.Outcome.{Outcome, convert-Outcome}
use aprsr.Server.Listener.{Sockets, bind_all}
use aprsr.Server.Listener.Bound
use aprsr.Store.{PositionEntry, position_of}
use aprsr.Store.Newest.{record_all, position_of-newest}
use aprsr.Tests.Filters.{whole}

-- An address is its text, on a port of its own length.
abbrev texts : Addresses
texts = record { addr = Bytes; parse_addr = some; show_addr = λ a. a; port = λ _. 14580 }

abbrev config_file : Bytes
config_file =
    codes
      "ServerId T2X\nPassCode 12345\nListen \"Full feed\" fullfeed tcp :: 10152 hidden\nUplink \"Core\" full tcp rotate.aprs.net 10152\n"

convert-Outcome_example : Outcome texts (lines config_file) (convert texts config_file)
convert-Outcome_example = convert-Outcome texts config_file

tokenize-quoted_example :
    tokenize
      (join_spaces (map quoted (codes "Full feed" ∷ codes "" ∷ []))
        ++ remark (some (codes " not hidden")))
      7
    ≡ ok (codes "Full feed" ∷ codes "" ∷ [])
tokenize-quoted_example =
    tokenize-quoted (codes "Full feed" ∷ codes "" ∷ []) (some (codes " not hidden")) 7
      (
        record { unquoted = ground arith; begins = refl },
        (record { unquoted = tt; begins = tt }, tt),
      )
      refl

abbrev config : Config texts
config = record {
  server = record {
    id = codes "T2X";
    passcode = pos 12345;
    admin = codes "A. Nyone";
    email = codes "noc@example.org";
    run_dir = codes "data";
  };
  limits = default_limits;
  database = default_database;
  http = record { status_bind = none };
  listeners =
      record {
        name = codes "full";
        kind = full_feed;
        protocol = tcp;
        bind = codes "[::]:10152";
        filter = none;
        max_clients = some 200;
        hidden = false;
      }
      ∷ record {
        name = codes "igate";
        kind = igate;
        protocol = tcp;
        bind = codes "[::]:14580";
        filter = some (codes "t/m");
        max_clients = none;
        hidden = false;
      }
      ∷ [];
  uplinks = [];
}

validate_iff_example : (validate texts whole config ≡ ok tt) ↔ IsRunnable texts whole config
validate_iff_example = validate_iff texts whole config

-- Every port can be bound.
abbrev free : Sockets texts
free = record { socket = Bytes; io_error = Unit {0}; bind = λ a. ok a; local_addr = λ s. ok s }

valid : validate texts whole config ≡ ok tt
unfolding validate check_listeners check_filter str_eq Bytes.eq_ignore_ascii_case
    Bytes.split_ascii_whitespace Bytes.split Bytes.first_char Callsign.parse_login Callsign.parse
    Callsign.validate Callsign.scan Callsign.check_ssid Parse.parse_chain Parse.parse_tokens
    Parse.parse_token Parse.negation Parse.parse_filter Parse.parse_coded Parse.code_and_args
    Parse.parse_type Parse.type_letters Parse.near_of Parse.exact_1 Parse.list
    Aprs.from_filter_letter Aprs.union
valid = refl

bind_all-Outcome_example :
    Bound.Outcome whole texts free config.listeners (bind_all whole texts free config)
bind_all-Outcome_example = Bound.bind_all-Outcome whole texts free config valid

abbrev beacon : Packet
beacon = record {
  raw = codes "N0CALL>APRS:!4903.50N/07201.75W_";
  source = codes "N0CALL";
  destination = codes "APRS";
  path = Digipath.new [];
  payload = codes "!4903.50N/07201.75W_";
  colon = 11;
}

parse_payload-IsClassified_example : IsClassified whole beacon b'!' (parse_payload whole beacon)
parse_payload-IsClassified_example = parse_payload-IsClassified whole beacon b'!' refl

-- 49 degrees and 3.5 minutes north, 72 degrees and some minutes west.
abbrev report : Report
report = record {
  latitude = record {
    degrees = 49;
    minutes = record { tens = shown 0; ones = shown 3 };
    hundredths = record { tens = shown 5; ones = blank };
  };
  north = true;
  longitude = record {
    degrees = 72;
    minutes = record { tens = blank; ones = blank };
    hundredths = record { tens = blank; ones = blank };
  };
  east = false;
  table = b'/';
  code = b'-';
}

parse_uncompressed-written_example :
    Reported whole report (parse_uncompressed whole (written report (codes "Test")))
parse_uncompressed-written_example =
    parse_uncompressed-written whole report (codes "Test")
      (omega arith, (omega arith, omega arith), (omega arith, tt)) (omega arith, (tt, tt), (tt, tt))
      (inl refl) (omega arith)

-- `/5L!!<*e7>` and three more bytes.
abbrev squeezed : Option (Position ℕ × Symbol)
squeezed =
    parse_compressed whole
      (compressed b'/' b'>' 15427503 20427156 (b'7' ∷ b'P' ∷ b'[' ∷ codes "test"))

abbrev south : ℕ
south =
    whole.sub (whole.of_int (pos 90))
      (whole.div (whole.of_int (pos 15427503)) (whole.of_int (pos 380926)))

abbrev west : ℕ
west =
    whole.add (whole.neg (whole.of_int (pos 180)))
      (whole.div (whole.of_int (pos 20427156)) (whole.of_int (pos 190463)))

parse_compressed-compressed_example :
    ((squeezed
        ≡ some (
          record { latitude = south; longitude = west },
          record { table = codes "/"; code = codes ">" },
        ))
      ↔ IsPlace whole south west)
    × ((squeezed ≡ none) ↔ ¬ IsPlace whole south west)
parse_compressed-compressed_example =
    parse_compressed-compressed whole b'/' b'>' 15427503 20427156 b'7' b'P' b'[' (codes "test")
      (omega arith) (omega arith) (inl refl) (omega arith)

-- Two reports of one station, the older of which arrives last, and one of another.
abbrev entry : Bytes → ℕ → ℕ → PositionEntry ℕ
entry callsign latitude heard_at = record {
  callsign = callsign;
  position = record { latitude = latitude; longitude = 0 };
  symbol = none;
  heard_at = pos heard_at;
}

position_of-newest_example :
    position_of
      (record_all
        ((entry (codes "N0CALL") 1 100 ∷ [])
          ++ entry (codes "n0call") 2 200
            ∷ entry (codes "N0CALL") 3 150
            ∷ entry (codes "K1ABC") 4 300
            ∷ [])
        [])
      (codes "n0call")
    ≡ some (record { latitude = 2; longitude = 0 })
unfolding str_eq
position_of-newest_example =
    position_of-newest (entry (codes "N0CALL") 1 100 ∷ [])
      (entry (codes "N0CALL") 3 150 ∷ entry (codes "K1ABC") 4 300 ∷ [])
      (entry (codes "n0call") 2 200) (refl, tt) (refl, (refl, tt))
