-- ===== src/Lib.antt =====
-- A model of the order book of the backtester and of the memory it keeps its orders in.
--
-- The program replays recorded messages of an exchange. A message (include/message.h) goes to an
-- `Orderbook` (include/book/orderbook.h), which keeps for each side a vector of price levels and
-- the index of the best one. A level (include/book/limit.h) is a queue of orders, linked through
-- the orders (include/book/order.h). The orders come from an `OrderPool`
-- (include/book/order_pool.h), the levels from a `LimitPool` (include/book/limit_pool.h), and a
-- `PageMap` (include/slab_map.h) leads from ids to orders. A strategy (include/strategy.h) reads
-- the statistics of the book and trades one contract at a time. A `ConnectionPool` leases the
-- connections that strategies log through. A `Parser` (src/parser.cpp) reads the messages from a
-- file, a `MarketDataIngestor` or a `Backtester` feeds them to a book, and a `ConcurrentBacktester`
-- runs a backtester for each instrument. An `AsyncLogger` and a `Connection` take what a strategy
-- logs through a `LockFreeQueue` each and write it to a file and to a database.
--
-- Which file models which part:
--   Heap        `Order`, `Limit` and the memory that holds them: a function from addresses
--   Limit       the queue of a level: `add_order`, `remove_order`, `is_empty`
--   OrderPool   `get_order`, `return_order`, `alloc_page`
--   LimitPool   `acquire`, `release`, `make_node`
--   PageMap     `slot_ptr` in its steps, `find`, `insert`, `erase`, the constructor, `clear`
--   Message     `book_message`
--   Book        `Orderbook`: constructor, `process_msg`, `add_order`, `modify_order`, `cancel_order`,
--               `adjust_bbo` and the accessors of the best prices. The template parameter `Side` is a
--               Bool, true for bids; a member function is a function from book to book.
--   Floats      floating-point numbers, as a parameter
--   Stats       the statistics of `Orderbook`: volumes, imbalance, voi, mid prices
--   Strategy    the accounting of `Strategy`, and `ImbalanceStrat` of src/strategies/imbalance_strat.cpp
--   Linear      `LinearModelStrategy` of src/strategies/linear_model_strat.cpp; the solver is a parameter
--   ConnectionPool  opening, leasing and releasing connections, and batches of lines, of
--               src/connection_pool.cpp
--   Text        bytes, and what strtoull, strtol and strchr make of them
--   Parser      `Parser` of src/parser.cpp, from the bytes of the file to the stream of messages
--   LockFreeQueue  `LockFreeQueue` of include/lock_free_queue.h, one access to shared memory a step
--   Clock       `get_formatted_time_fast`, and how the backtester parses and compares its text
--   Backtester  `Backtester` of src/backtester.cpp; its two loops are in Backtester/Session
--   ConcurrentBacktester  the work of the thread of an instrument, of src/concurrent_backtest.cpp
--   MarketDataIngestor  the price window and the loop of src/market_data_ingestor.cpp
--   Connection  the socket and the loop of src/db_connection.cpp
--   AsyncLogger the mapped file and the loop of src/async_logger.cpp
-- The modules below each of them hold its invariants and laws; Prelude has the shared names, 32-bit
-- words and fallible runs; Tests has concrete runs.
--
-- An operation of the book returns an Option: `none` is an index out of range of a vector, which
-- the source does not test. 32-bit words are bit patterns with the wrap-around written out, as is
-- the one of a signed position; a signed sum or difference wraps too, where the language leaves it
-- undefined. The loop of `adjust_bbo` has RANGE_ less the best index as its bound of rounds, which
-- is all the levels left; the loops of `close_positions` have the size of the position.
--
-- What stands outside is a parameter (`System`): the addresses that aligned_alloc and
-- posix_memalign return, and the contents of fresh memory. `IsSystem` states what is documented of
-- them: blocks are not null and do not overlap, pages of mmap are zeroed. Likewise the text of a
-- second in the local zone (`local_text`), the print of a float (`shown`), the answers of sockets
-- (`Answers`, in which `send` may fail or take a part of a line) and the solver are parameters.
-- `msync`, whose result the code ignores, is taken to write. A loop that another thread may stop
-- reads its flag from a function of its round (`observe`). The queue has one producer and one
-- consumer, whose steps interleave in any order over sequentially consistent memory; its
-- destructor has the size of the buffer as its bound of rounds, and the loops over messages and
-- lines follow what is left of them. Failed allocations, the destructors of the book and its
-- pools, the output functions and the programs are not modelled, nor are `calculate_vwap`, which
-- nothing calls, and include/book/ring.h, which does not compile.
pub mod Prelude
pub mod Heap
pub mod Limit
pub mod OrderPool
pub mod LimitPool
pub mod PageMap
pub mod Message
pub mod Book
pub mod Floats
pub mod Stats
pub mod Strategy
pub mod Linear
pub mod ConnectionPool
pub mod Text
pub mod Parser
pub mod LockFreeQueue
pub mod Clock
pub mod Backtester
pub mod ConcurrentBacktester
pub mod MarketDataIngestor
pub mod Connection
pub mod AsyncLogger
pub mod Tests
