-- ===== src/Protocol.antt =====
-- venue/protocol.h and venue/protocol.cpp of engine/order-matching-engine. A text is its bytes, and a
-- parser that the source gives a position takes the bytes from there on and returns those behind
-- what it read; `none` is its `false`. The children: `Scan` has the lexical parsers, `Number` the
-- integers and prices, `Inbound` the messages that arrive, and `Outbound` those that are sent.
pub mod Scan
pub mod Number
pub mod Inbound
pub mod Outbound
