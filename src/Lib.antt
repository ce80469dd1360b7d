-- ===== src/Lib.antt =====
-- Verification of the feed handler's core: how a NASDAQ ITCH 5.0 byte stream becomes messages, and
-- how these move the limit order books.
--
-- The program reads a file or a packet as length prefixed frames (src/itch/framing.cc), takes the
-- type byte of each message (src/itch/message_type.h), decodes its fields (src/itch/decoder.cc)
-- through big endian readers (src/common/byte_reader.h), and applies it to the book of its stock
-- (src/book/order_book.cc), which keeps the orders in a hash table (src/common/flat_hash_map.h) and
-- each side as price levels (src/book/price_levels.cc).
--
-- Files:
--   Base: Boolean tests, lists by native index, machine words, masks and shifts.
--   ByteReader: be16, be32, be48, be64 of src/common/byte_reader.h. A pointer is the list of the bytes
--   from it to the end of its buffer, and a read past the end is none.
--   Itch/MessageType, Itch/Messages, Itch/Decoder: the files of src/itch of the same names, one
--   function per decoder. Itch/Decoder/Wire is the layout that the specification gives.
--   Itch/Framing: Framer and the loop over it. Fuel: one step per byte of the buffer and one more is
--   enough, since each frame takes at least its two bytes of prefix.
--   OrderIndex: the class OrderIndex of src/common/flat_hash_map.h. A probe loop has the capacity as
--   fuel, which is enough since the table is never full. Its children hold the ring of slots, the
--   probe chains, the invariant, growth, deletion and the write through a found pointer.
--   Book/Level, Book/SortedMap, Book/Bitmap, Book/PriceLevels: src/book/level.h and price_levels.cc;
--   the sorted map is that of the standard library, the bit scans are those of its header bit. The
--   loops over the bits of a word have one round of fuel for each of the 64 bits. A cell past the end
--   of the array, which is undefined in C++, reads as an empty level.
--   Book/PriceLevels/WellFormed is what a side keeps and the level that it has at a price, Refinement
--   the map from prices to levels that its operations promise. Writes and FarWrites are writes of one
--   level; AddedCell, Anchoring and Adding, Shares, and Vacating and Removing treat one operation
--   each, Gather, Latest, Gathered, Placing and Rebase the move of the window of cells, and Top,
--   Scanned, Cached, Entering and Best the cached best cell. Book/Bitmap/Marks, Enumerate and
--   Positions are about the bits that an operation changes and the order in which the loops meet
--   them.
--   Book/OrderBook: src/book/order_book.cc. Book/OrderBook/Spec is the map of resting orders that its
--   operations promise; Removing, Reducing, Adding and Replacing hold the refinement of each,
--   and Reachable what holds after any sequence of them.
--   Book/BookSet, Book/Replay: src/book/book_set.cc and replay.cc. Fuel of the replay: as for framing.
--   A book past the end of the array, which is undefined in C++, reads as a new book, and a write
--   there changes nothing; the callers ask first whether the locate is known.
--   FeedHandler: apps/feed_handler/main.cc, the loop over a file with its audit, and FeedHandler/Report,
--   what follows it. Its children hold the balance of each arm, of each message and of the whole loop.
--   A build without NDEBUG, in which the full check is sampled too, is the parameter `debug`. The
--   counts by type are ordered as signed `char`.
--   Replayer: apps/replayer/main.cc, the loop that packs a file and drops or sends the packets. The times
--   of the rate limiter and the results of `sendto` are parameters. Its children hold the flush, the
--   state between two messages, one message, and the whole run.
--   Receive: src/receive/recvfrom_receiver.cc and socket_setup.cc, over the answers of the system's
--   calls. Whether the caller gives a pointer for the bound port is the parameter `wants_port`; the
--   receiver does.
--   Capture: the checksum and the records of apps/replayer/capture.cc. Fuel: four rounds of carries.
--   Latency: src/common/latency_recorder.h.
--   Mold/UdpSender: src/mold/udp_sender.cc. What the operating system answers is a parameter.
--   Mold/Packet, Mold/Packer, Mold/Decoder, Mold/GapInjector: src/mold/mold.cc, packer.cc, decoder.cc
--   and gap_injector.h. The sink of the decoder is a parameter, a step on a state of its own. A packet
--   is the list of its bytes. Mold/Transfer joins packer and decoder.
--
-- Not modelled: the reading of files, the calibration of clocks, the rate limiter's waiting, the parsing
-- of arguments, and printing: they are input and output, or floating point.
pub mod Base
pub mod Book
pub mod ByteReader
pub mod Capture
pub mod FeedHandler
pub mod Itch
pub mod Latency
pub mod Mold
pub mod OrderIndex
pub mod Receive
pub mod Replayer
