-- ===== src/Lib.antt =====
-- aprsr, an APRS-IS server (crates/aprsr-core, crates/aprsr-config, crates/aprsr-server,
-- crates/aprsr-store).
--
-- The configuration (Config, crates/aprsr-config/src/lib.rs) names the listening ports. It is
-- validated, or imported from a file of aprsc (Config/Aprsc, crates/aprsr-config/src/aprsc.rs),
-- with durations read by Interval (crates/aprsr-config/src/duration.rs). Server/Listener
-- (crates/aprsr-server/src/listener.rs and lib.rs) binds the ports. Server/Client
-- (crates/aprsr-server/src/client.rs) is one connection, and Server/Sessions all of them: a
-- relation whose steps are what one task does between two waits, for `serve`, the accept loop and
-- the dispatch task, in any order.
--
-- A client's bytes are cut into lines (Server/Codec, crates/aprsr-server/src/codec.rs). Its first
-- line is the login (Login, crates/aprsr-core/src/login.rs), whose callsign (Callsign,
-- crates/aprsr-core/src/callsign.rs) and passcode (Passcode, crates/aprsr-core/src/passcode.rs)
-- decide whether it may send packets. Every packet it sends goes through `process`
-- (Server/Dispatch, crates/aprsr-server/src/dispatch.rs): the line is parsed (Packet,
-- crates/aprsr-core/src/packet.rs), a copy seen recently is dropped (Dupecheck,
-- crates/aprsr-core/src/dupecheck.rs), the q algorithm accepts or rejects it and tags its path
-- (Qconstruct, crates/aprsr-core/src/qconstruct.rs, on Digipath, crates/aprsr-core/src/path.rs),
-- its information field is parsed (Aprs/Payload, crates/aprsr-core/src/aprs/mod.rs, with the
-- positions of Aprs/Encodings, crates/aprsr-core/src/aprs/position.rs), its position is remembered
-- (Store, the cache of crates/aprsr-store/src/lib.rs), and the registry (Server/Registry,
-- crates/aprsr-server/src/registry.rs) offers it to every client whose filter (Filter,
-- crates/aprsr-core/src/filter/mod.rs) accepts it. Server/Metrics counts
-- (crates/aprsr-server/src/metrics.rs). Geo is the area test of the filters
-- (crates/aprsr-core/src/geo.rs). Prelude, Bytes and Numbers are shared: lists over native numbers,
-- the operations of Rust's `str` on bytes, and its reading and printing of integers.
--
-- Each component is a module named for it: the structs are records, the enums data types, and a
-- function of the source is a function of the same name in snake case, with helpers for its loops
-- and branches. State is passed: an operation on `&mut self` returns the new state beside its
-- answer. `?` on a `Result` is the bind of Prelude/Results, and on an `Option` that of
-- Prelude/Options. Texts are their UTF-8 bytes. The `Path` of the source is called Digipath here.
-- Counters wrap at 64 bits.
--
-- Fuel: the hop iterator has one round more than the path has bytes, and Digipath/Hops shows that
-- it lists every field; `decode` has one round more than the buffer has bytes, and
-- Server/Codec/Decode shows that it returns; the digits of a 64-bit number take at most twenty
-- rounds, and Numbers/Decimal reads them back.
--
-- Parameters: the hasher of the duplicate detector, the bounded channels of a client's writer and
-- of the dispatch task, the log of connections in the database, socket addresses and the calls that
-- bind them, and 64-bit floats with their great-circle distance (trigonometry is outside the
-- kernel). Server/Dispatch takes the position store and the parser of the information field as
-- parameters, and Server/Client fills them with Store and Aprs/Payload. `drain` and `read_all`
-- stand for the reader of tokio-util, which calls the codec until it wants more bytes.
--
-- Not modelled: the relay of `write_feed` and the waits themselves (sockets, timers),
-- `Server::run`, the reading and writing of TOML by figment and toml, the texts of the warnings of
-- the importer, the queries and migrations of the database, the web interface and the command line.
-- What the code only logs is left out. The texts of durations are taken to be ASCII.
pub mod Prelude
pub mod Bytes
pub mod Numbers
pub mod Callsign
pub mod Passcode
pub mod Digipath
pub mod Packet
pub mod Qconstruct
pub mod Dupecheck
pub mod Geo
pub mod Aprs
pub mod Filter
pub mod Login
pub mod Interval
pub mod Config
pub mod Store
pub mod Server
pub mod Tests
