-- ===== src/Lib.antt =====
-- Verification of the exchange venue of this repository (engine/order-matching-engine): the order
-- book with its memory, the wire protocol, the venue and the server around them.
--
-- The parts and their files. Paths of the program are from engine/order-matching-engine/.
--   Order         include/types.h and include/order.h. An order lives in a slot of the pool, a
--                 pointer is the number of a slot or null, and the memory maps slots to orders.
--   PriceLevel    include/price_level.h and src/price_level.cpp: the queue that is linked through
--                 the orders. Links has the chains as lists of slots, Queue what a level stands
--                 for, AddToTail and Remove the two operations.
--   OrderPool     include/order_pool.h and src/order_pool.cpp. FreeList has what a pool stands for,
--                 Construct the constructor, Cycle `allocate` and `deallocate`.
--   OrderBook     include/order_book.h. Levels has the sorted sides and their searches, with Search
--                 and Lookup on what these find. Match has the loop of `matchBuy` and `matchSell`;
--                 below it Spec is the matching on one list of resting orders, Ladder and Invariant
--                 what the levels stand for, Fill, Retire and Round what a round does, Cross,
--                 Outcome and Loop the comparison of the two, Conservation and Uncrossed what
--                 follows for quantities and prices; Progress is what a round leaves untouched,
--                 Parts a side cut in two. The file itself has `addLimitOrder` and
--                 `cancelOrder`. A side is a list from the back of the vector: the best level
--                 first. Below it, Abstract has the two operations on lists of resting orders,
--                 Index the map from ids to slots, WellFormed the invariant of the whole book;
--                 Locate, Withdraw, Cancel and Cancelled are the way of `cancelOrder`, and
--                 Accounts (which slots are whose), Pending (an order that is in neither side),
--                 MatchAt, Released (it goes back to the pool), Gap, Queued and Rest (it joins
--                 its side), Views, Add and Added that of `addLimitOrder`. Apart is about prices
--                 that do not cross, Runs has the runs of operations from a new book, and Promises
--                 what holds behind each of them. Levels/Split and Levels/Prices, and
--                 PriceLevel/Middle, are about a level in the midst of a side and an order in
--                 the midst of a level.
--   Framing       venue/framing.h and venue/framing.cpp: `encodeFrame` and `FrameDecoder`.
--   Protocol      venue/protocol.h and venue/protocol.cpp: Scan has the lexical parsers, Number
--                 integers and prices (Number/Prices which prices are read), Inbound
--                 `parseInbound`, Outbound `quoteJson` and the encoders.
--   Venue         venue/venue.h and venue/venue.cpp: State has the types, Fills `onTrade` and
--                 `routeFill`, Requests the two kinds of order messages, the file itself
--                 `handleLine` and `dropConnection`. Admission, Routing and Cancelling are about
--                 one operation each. Reductions has what a trade does to the table of live orders,
--                 Mirror sets this table beside the matching, Consistent and Joining beside the
--                 book; Accepting has what an accepted order, and Dropping what a connection that
--                 goes does to both; Handling has `handleNewOrder` and Withdrawing `handleCancel`
--                 as a whole.
--   Server        venue/server.h and venue/server.cpp: Connections has the tables and buffers,
--                 Reading what `recv` feeds, the file itself the writing side and a round of `run`.
--   CommandLine   venue/main.cpp: the options and the server that they ask for; Range is what the
--                 settings are within.
--   Tests         runs of the model, and the theorems at concrete inputs.
--   Prelude       shared names, tests on numbers, lists, keyed tables and texts.
--
-- How the parts interact. The server feeds a connection's bytes to its decoder and each payload to
-- the venue; the venue answers by messages for connections, which the server frames and buffers.
-- The venue calls the book, and what the book's callback receives is the list of trades that a call
-- of the book returns: the callback does not reach into the book, so it runs behind the call.
--
-- Conventions. A `std::string` is the list of its bytes, a hash map an association list. Integers
-- are the natural numbers; where the program's type can wrap, the operation says so (`% 2 ^ 32`).
-- A failed assertion and a null dereference are `none`. The capacity of a vector is what was
-- reserved for it, 4096 levels for a side. Time stamps, descriptors and the answers of
-- the operating system are arguments, and `strtoull` is a parameter.
--
-- Fuel. The matching loop has the incoming quantity and one more: each round but the last fills a
-- unit at least or ends the loop. The loop over frames has the buffer's length and one more: each
-- frame takes a header's bytes. The loop over the members of a JSON object has the length of the
-- text and one more: each member takes a byte, and the fuel's end is a parse error. Printing a
-- number has twenty digits, enough for 64 bits.
--
-- Not modelled: setting up sockets (input and output), the clock, the benchmarks, and the
-- Python clients in ops-layer.
pub mod Prelude
pub mod Order
pub mod PriceLevel
pub mod OrderPool
pub mod OrderBook
pub mod Framing
pub mod Protocol
pub mod Venue
pub mod Server
pub mod CommandLine
pub mod Tests
