-- ===== src/Lib.antt =====
-- A verification of the core of Dustnet, the crate crates/dustnet-core: the path of remote text from
-- bytes to tokens and back, addresses and origins, the frames, the bodies and the states of a
-- connection, and the tokens of sessions.
--
-- The parts, and how they interact:
--   Base/            the library shared by all: numbers and tests, lists, Rust's `str`, its UTF-8 and
--                    its decimal integers
--   Scanner/Escape   crates/dustnet-core/src/scanner/escape.rs: `sanitize` and `sanitize_into`, which
--                    the scanner calls on all of its input; Loop, Output and Sequences prove what
--                    the filter lets through and what it takes out
--   Scanner/Token, Lexer, Tags, Display
--                    crates/dustnet-core/src/scanner/mod.rs: the data, the readers of one token's
--                    parts, tags and the loop over tokens, and what tokens and errors print as; the
--                    other modules of Scanner prove that every scan ends and what it ends with
--   Serialize        crates/dustnet-core/src/serialize.rs: `to_aml`; its modules prove, from
--                    characters over values and tags to streams, that the scanner reads it back
--   Protocol/Error, Diagnostic, Display, Version, Capabilities
--                    crates/dustnet-core/src/protocol/mod.rs: errors, their bounded texts, versions
--                    and the negotiation of capabilities
--   Protocol/Frame   crates/dustnet-core/src/protocol/frame.rs
--   Protocol/State   crates/dustnet-core/src/protocol/state.rs: the transitions of a connection; its
--                    module Requests runs them over whole conversations
--   Protocol/Path, Uri
--                    crates/dustnet-core/src/protocol/uri.rs: the normalization of paths, and the
--                    parsing, the printing and the resolution of addresses
--   Protocol/Origin  crates/dustnet-core/src/protocol/origin.rs: the identity that sessions belong to;
--                    Canonical derives it from an address, Key and Order are its storage key
--   Protocol/Message crates/dustnet-core/src/protocol/message.rs: Lines and Fields are shared by the
--                    bodies; Get, Input, Subscribe, Update, Redirect, Failure (ERROR) and Page are
--                    messages; their modules Checked and RoundTrip compare readers and
--                    writers
--   Protocol/Holds   what a chain of fallible steps returns, for proofs
--   Session/Directive, Store
--                    crates/dustnet-core/src/session.rs: directives of a server and the stores of a
--                    client; the modules of Store prove what it keeps and finds
-- The modules named Tests run the theorems at concrete inputs.
--
-- A text is the list of its code points, and a byte the number of its value. A byte index into a text,
-- or an index into `chars`, is the part that is still unread, so that reading on is recursion on it;
-- offsets that errors report are kept as numbers. `Result` is a data type for each error type. State
-- that the code changes in place is passed on. Names of functions are the source's own.
--
-- Memory is the one thing that may fail at any time: what the allocator answers is a parameter, a
-- function of the site and the size or a Boolean for each request, and the theorems hold for all of
-- its answers, or say that they need it to grant. The time of a lookup is an argument.
--
-- Fuel: the loop of `sanitize_into` has the length of its input, and a round reads a character at
-- least; `scan_all` has one more than the characters left, and every token but the last reads one;
-- `scan_open_tag` the same for attributes; `decimal` one more than the number,
-- `count_digits` the number, and `write_decimal_u16` the five bytes of its buffer, and a
-- port has no more digits. For the filter and the scanner it is a theorem that no run is without fuel.
--
-- Of code that is not in the repository, the parser of IPv6 addresses, the IP addresses of the standard
-- library, the crate idna, the text of an error on bytes that are not UTF-8 and the size of a directive
-- in memory are parameters; Ipv6Laws and IpLaws say what is used of them.
--
-- Not modelled: the bodies of HELLO and WELCOME, the encoder of PAGE and the check that goes
-- over all messages, the parser of trees, colours, and the client and the server that are built on
-- this crate, with their sockets, terminals, TLS and files. The text of an operating system's error is
-- left out of its error.
pub mod Base
pub mod Protocol
pub mod Scanner
pub mod Serialize
pub mod Session
