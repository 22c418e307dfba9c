-- ===== src/Lib.antt =====
-- A limit order book with a binary order-entry protocol: matching engines, which keep the resting
-- orders of one instrument and match incoming orders against them by price and then by time, and
-- a gateway that speaks length-prefixed frames with its clients. The engines share the types of
-- include/lob/types.hpp and their semantics; the gateway reassembles frames from a byte stream
-- (net/framing.hpp), decodes them and encodes its answers (net/protocol.hpp), and calls an engine.
--
-- What is modelled:
--   Base      native numbers, signed integers for prices, words with their wrap-around, lists.
--   Types     include/lob/types.hpp. A listener is the list of the trades that it was told of.
--   Priority  the specification: a market of price-time priority is two queues of offers, best
--             price first and oldest first at a price, and the tape of trades. Priority/Market has
--             what each operation does to it, Priority/Effects what a taker does to quantities.
--   Naive     engines/naive_book.hpp, the reference engine. Naive.Sides is one side: a `std::map`
--             is the list of its entries in order, a `std::list` a list. submit_limit,
--             submit_market, cancel, modify, the observers and check_invariants have their names;
--             `match` is match_side, whose outer loop is match_from and whose inner loop is
--             fill_level; `rest` is rest_order over push_back. Naive.Refinement and
--             Naive.Amendment are about the market, Naive.Invariant and Naive.Session about the
--             shape of the book, Naive.Effects about what a caller relies on.
--   Protocol  net/protocol.hpp: Writer and Reader over a list of bytes, an `encode_` and a
--             `decode_` for each message, a chain of `get` calls as a do block.
--   Framing   net/framing.hpp: FrameBuffer. The sink is the list of the bodies it was given.
--   Gateway   net/gateway.hpp. Gateway.OrderIds is the class of that name over two lists of entries
--             (`assign` is assign_id, `side` is side_of), Gateway.Feed is FeedPublisher with the
--             datagrams and the unsolicited cancels as lists, Gateway.Frames has a connection's
--             outbox and handle_frame, one function per message, and cancel_on_disconnect. The
--             engine is a parameter, a record of operations that also give the calls of the
--             listener's hooks; the witnesses run it on the reference engine. The callback that
--             net/gateway.cpp registers for unsolicited cancels is tell_kills, for the connection
--             whose frame is handled: self-trade prevention takes only orders of the taker's owner
--             off the book, and each owner is one connection.
--   FeedClient  net/feed_client.cpp: a round of its loop is `receive`, the loop `run` over what
--             recvfrom gives, up to the signal that ends it. FeedClient.Following puts it behind the
--             feed of the gateway.
--   Fifo      the intrusive queues of include/lob/order_book.hpp. A heap maps addresses to orders, and
--             a level is at its side and its price. `unlink` has its name, `link` is the middle of
--             `rest`. Fifo.Cells has the list of orders that a queue stands for, Fifo.Links what it
--             is to be linked, Fifo.Moves and Fifo.Fills what the operations do to the list.
--   Engine    the matching core of include/lob/order_book.hpp, over a ladder, an id index and an
--             allocator that are an interface: Engine.Parts has the operations, Engine.Laws what
--             they promise. `match` is Engine.match, its loop over the levels match_levels, a round
--             of it take_level, its loop over a level walk. Engine.Execution has execute,
--             fok_fillable, rest and remove_from_book. Engine.Queues is the same matching on plain
--             lists, Engine.Walking and Engine.Filling (a level), Engine.Matching and Engine.Sweeping
--             (the levels) and Engine.Books relate the two loop by loop, with the lemmas of
--             Engine.Groups and Engine.Edits. Engine.Levels, Engine.Reference
--             and Engine.Agreement go on to the reference engine, and Engine.Places and
--             Engine.Resting take an order out of a book and put one in.
--   FlatLadder  class Ladder of include/lob/order_book.hpp: the array of levels, the bitmap and the
--             best price, under its names; on_empty, on_nonempty, scan_worse and bit_set work on
--             64-bit words. A std::vector is its size and a function; FlatLadder.Bits has the
--             words, FlatLadder.Scans the scan over them, FlatLadder.Shape the band,
--             FlatLadder.Contents the list of levels that a ladder tells of, FlatLadder.Changes
--             and FlatLadder.Laws what the operations make of it, FlatLadder.Queries the new
--             ladder and bit_set.
--   OrderBook the public operations of include/lob/order_book.hpp over that core. OrderBook.Cancels is
--             about cancel, OrderBook.Amends about modify in place. OrderBook.Placing (the
--             place of a new order), OrderBook.Missing (its id), OrderBook.FillOrKill (the test)
--             and OrderBook.Submission (match and rest) lead to OrderBook.Limits, where a whole
--             limit order meets the reference engine's, and to OrderBook.Markets, where a market
--             order does. OrderBook.Audit is check_invariants with check_side, one function per
--             loop: Audit.Orders (a level), Audit.Levels and Audit.Rounds (a price), Audit.Band
--             (the band) and Audit.Books (the book) show that it
--             passes.
--   Stages    engines/book_v4.hpp: its `std::map` ladder, its `std::unordered_map` and the pool
--             fill the interface (Stages.V4.Laws), and Stages.V4 has its operations. The map is
--             the list of its entries, the index what it finds and how much it holds, and an
--             order's address is one more than its slot. engines/book_v5.hpp likewise, in
--             Stages.V5, over FlatLadder: its class Ladder has the same text.
--             Stages.Agreement compares the two.
--   Pool      include/lob/pool.hpp: slots are numbered in the order of the slabs, and the free list
--             is the list of its slots. `create` is raw_slot.
--
-- Quantities are below 2^32 and sums of them are taken modulo 2^32 or 2^64 as in the code. Prices
-- are the values of 64-bit integers; the sum of a best price and the protection wraps
-- around at 64 bits, which C++ leaves open, and the theorems on it ask that it does not. The loops of `match` and of the lookups are structural
-- recursion on the side. `drain` runs on the number of bytes plus one and `feed` on the length of
-- its chunk, which is enough, since each round consumes a byte at least. The loops of the matching
-- core run on one more than the size of the id index: each round of the inner loop leaves an
-- order behind, and each round of the outer one a level.
--
-- The scan of the bitmap runs on the number of words that are left, the audit on the size of the
-- band and, for a level, on one more than the size of the id index.
--
-- What is not modelled: the id map of include/lob/order_book.hpp, for which the core has an interface
-- only; check_invariants of engines/book_v4.hpp; the stages engines/book_v1.hpp to book_v3.hpp;
-- and the sockets, the order client, benchmarks and scripts. The reference engine ignores
-- self-trade prevention, as its source says.
pub mod Base
pub mod Types
pub mod Priority
pub mod Naive
pub mod Protocol
pub mod Framing
pub mod Gateway
pub mod Pool
pub mod FeedClient
pub mod Fifo
pub mod FlatLadder
pub mod Engine
pub mod OrderBook
pub mod Stages
mod Tests
