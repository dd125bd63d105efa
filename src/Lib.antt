-- ===== src/Lib.antt =====
-- Verification of the Autonomi WebRTC-Direct proof of concept: a proxy that answers "what bytes are
-- stored at this address?" on a data channel, and a browser client that verifies every byte.
--
-- The program's parts, and the files that model them:
--   crates/proxy/src/protocol.rs     Protocol: read_request, write_found, write_status, drain_to_eof
--   crates/proxy/src/source.rs       Source: FixtureSource, NetworkSource, Source, address_of
--   crates/proxy/src/main.rs         Handler: handle_request, serve
--                                    Main: main, from the arguments to the event loop
--                                    Start: dump, advertised, run
--                                    Identity: load_or_create_keypair, load_or_create_certificate
--   crates/wasm-client/src/lib.rs    Client.Address: parse_hex_address, hex, parse_address
--                                    Client.Retrieval: begin, required_addresses, supply, advance,
--                                    is_complete, chunk_count, chunks_held, finish
--                                    Client.Upload, Client.Driver: upload and retrieve of its tests
--                                    Client.Tests: the tests themselves
--   vendor/webrtc-dtls, libp2p-webrtc  Dtls: the two changes to these copies
--   web/src/fetch-client.js          Browser.Reader: exactReader; Browser.Fetch: getChunk, send;
--                                    Browser.Connect: connect
--   web/src/retrieve.js              Browser.Retrieve: retrieve, splitAddresses, forEachConcurrently;
--                                    Browser.Retrieve.Concurrent: the workers of the last, in turns
--   web/src/app.js                   Browser.Page, Browser.PageText: ensureWasm, ensureConnected,
--                                    download, present and the buttons' handlers
--
-- The proxy's handler reads 32 bytes from a stream, asks its source, and writes a response. The
-- client is a state machine: it names the addresses that it needs, is supplied with bytes, and
-- decrypts when nothing is missing. Two scripts join them: getChunk sends an address on a stream of
-- its own and reads the response, and retrieve drives the state machine with what getChunk returns.
-- The page keeps one connection, and a click runs retrieve over it.
-- Browser.Exchange is about one request from end to end, Browser.Retrieve.Fixture about a whole
-- download from a fixture, and Browser.Retrieve.Uploaded about one through a shrunk data map. System
-- joins both ends by a link and puts all of it together, from the file with which `main` starts
-- (System.Started) up to the click on the page (System.Click). What connects the parts is the
-- content address. Client.Retrieval.View says what a retrieval promises to those who call it, with a
-- cache that is a function.
--
-- What is not code of the repository is a parameter. Crates.Crates stands for self_encryption,
-- rmp_serde and blake3, with their documented behaviour in CrateLaws and UploadLaws, and
-- Client.Upload.Shrink for shrink_data_map, with ShrinkLaws; Protocol.Transport.Stream for a
-- libp2p stream, with StreamLaws; Source.Network for the network client; Browser.Fetch.Connection
-- and Browser.Connect.Libp2p for js-libp2p; Start.Directory for a directory; Identity.Files and
-- Identity.Credentials for the file system and the key types; Main.Host for what main calls of
-- libp2p and of the standard library; System.Link for the network between the two ends. Examples
-- has concrete values for all of them, on which the theorems are applied.
--
-- `encrypt` returns its chunks in an order of its own (docs/FINDINGS.md, section 8): Crates.Arranged
-- says that the map lists the same ones in another, and `decrypt` is given them in the map's order.
-- The names that a child map lists, and the wrappers in the order in which they were stored, are
-- compared in the same way.
--
-- Bytes are natural numbers, and a statement that needs them below 256 says so. A `HashMap` is an
-- association list with one entry for a key; its iteration order is one of those that Rust permits.
-- An `Error` of the client is a constructor for each message. Hash collisions are not assumed away:
-- a theorem that turns on them has a collision as its other case.
--
-- Fuel: the loop of `drain_to_eof` takes fuel, and more of it than the client has bytes left to send
-- is enough. `slice.chunks` takes the slice's length, since every round takes an element. The 16
-- rounds of `retrieve` are the script's own limit, and the 8 of the tests' loop are theirs; one round
-- resolves a child map and one fetches the content, so they are enough. A child map of which the
-- wrappers are themselves behind wrappers that it does not name is not covered: see the conditions
-- of Browser.Retrieve.Uploaded.
--
-- The buttons are disabled while a download runs, so a download is one step of the page; that its
-- address or its proxy field is edited meanwhile makes no difference, since both are read first.
--
-- Not modelled: logging, the inside of the swarm, the choice of a rustls provider; of web/src/app.js
-- inflateBase64, the progress bar, formatBytes, the measured time and the elements that build lays
-- out; the integration tests and the build script under web/; and the two library copies under
-- vendor/ but for their changes.
pub mod Prelude
pub mod Protocol
pub mod Crates
pub mod Source
pub mod Handler
pub mod Identity
pub mod Start
pub mod Main
pub mod Dtls
pub mod Browser
pub mod System
pub mod Examples
pub mod Client
