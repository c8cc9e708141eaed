-- ===== src/Lib.antt =====
-- The market-making engine of engine/src, in Rust: a simulated exchange matches orders and publishes
-- every change of its book over UDP; a feed handler checks the sequence numbers and hands the events
-- on; a strategy replays them into a book of its own and sends quotes back. Both ways go through a
-- lock-free ring buffer.
--
-- Prelude        names, lists and numbers that the other files share. The numbers are native; Int has
--                the signed integers, Word the wrapping u64 and i64
-- Types          engine/src/types.rs: sides, orders, fills, events and commands
-- TreeMap        the standard library's BTreeMap, as far as the book uses it: a sorted list
-- OrderBook      engine/src/orderbook.rs: `OrderBook` with its methods, which return the new book.
--                Walk reads the matching loops as one walk over the levels in their priority, Orders
--                as one pass over the resting orders; Replay compares matching with `apply_trade`;
--                Marks counts resting orders. Mirror has the methods that a book needs which follows
--                another: trades that are applied, snapshots and depth
-- RingBuffer     engine/src/ringbuffer.rs: `try_push`, `try_pop` and `make_inner` (Queue, Fifo), a burst
--                of pushes (Burst), and the calls of two threads in their atomic steps (Threads, View,
--                Races), which interleave: a load may be out of date by any number of the other side's
--                calls when it is used
-- UdpFeed        engine/src/udp_feed.rs: the loop of `run` (run_feed), round by round
-- MarketSim      engine/src/market_sim.rs: the exchange thread, `run` with `place_background` (run_sim).
--                Keeps goes from the three changes of the book to the rounds, Safe is about the book's
--                invariants, Log about the feed against the book, Numbers about its sequence numbers.
--                Loss compares a run with losses with the same run without, and Gaps what is lost with
--                what the feed handler counts. Tracked compares the strategy's own
--                orders on a side with what the exchange has on record, Ours carries that over the
--                changes of the book, Quoted over the rounds, and Withdraw draws the conclusions
-- Risk           engine/src/risk.rs: `compute_risk` and the kill switch, which Latch runs over many
--                evaluations
-- Quoting        engine/src/quoting.rs: the volatility estimate and the quotes; Spread has the laws of an f64
--                that the two sides of a quote rest on
-- Strategy       `run_strategy` of engine/src/main.rs: the replay of the feed (drain) from the ring
--                (drain_ring), the snapshots (pull_resync), what is sent (decide), and a pass of the
--                loop (pass). Follow puts it behind the exchange, Drain behind the ring, the feed
--                handler and the exchange, Heal behind the exchange's snapshots, Recover behind the
--                exchange again after a snapshot. Stale has events that a snapshot covers, Decide is
--                about the kill switch, Quotes about the prices that are sent, Inventory about its
--                trades, Settle about its cash and its quotes. Publish has what a pass shows the monitor, Stop goes from a monitor's command
--                to what is sent, Withdraw on to the exchange's book
-- Bench          engine/src/bench.rs: the threads of `run` in their atomic steps (turns), which Running
--                puts behind the invariant of the ring, Progress measures, and Finish brings to their
--                end; the rounds on one thread (RoundTrip); the printed figures and all of `run` (Summary)
-- Ipc            engine/src/ipc.rs: the server (run_server), a client's reader (read_loop) and writer
--                (write_loop). Command is about the test of a line, Kill about the flag, Lines about
--                what a client reads
-- Args           the arguments of `main` in engine/src/main.rs (main_mode): Numeral is about the numbers,
--                Flags about the flags
-- Float          what the code does with an f64, as a parameter
--
-- Prices are signed integers. No operation of the book but the shadow view's `depth_snapshot` adds to a
-- quantity, so that quantities are natural numbers there, and `depth_snapshot` wraps. The counters of
-- the ring and of the feed handler are u64 that wrap, as in a release build. So are the identifiers of
-- orders: a theorem that rests on their being different asks for fewer than 2 ^ 64 readings of the clock,
-- of which every order takes one at least.
--
-- Each round of the matching loops takes an order or a level off the book, or leaves nothing to match:
-- the fuel is one more than their number. No theorem on the loops assumes that it suffices.
-- The strategy's loop over its ring has fuel for one turn more than there are events.
-- `next_power_of_two` doubles 64 times at most. The benchmark's threads run by a schedule, a list that
-- says whose step comes next; 10 n + 4 rounds in which both take a step are enough for n messages, as a
-- message takes at most five steps of the thread that has to act, on either side.
--
-- The socket and the JSON decoder of the feed handler are parameters: a list of what `recv_from`
-- returned, and a function from bytes to packets. So are the clock and the random draws of the exchange:
-- a function from the number of reads to times, one from sequence numbers to losses, and for each round
-- of the loop the draws and the commands that it finds. The price walk in floats gives a round its mid
-- price in ticks, which may be any integer. What the monitors' sockets return, the printer of JSON, and
-- the readings of the clock in the benchmark are arguments as well. Lines and payloads are lists of
-- codes; a line is what `read_line` decoded.
--
-- Not modelled: the start of the threads in engine/src/main.rs, and how long they sleep; sockets, locks
-- and the clock beyond what they return, a poisoned lock among it; whether the ring of the commands had
-- room, which the strategy does not look at; the lines that the benchmark and the
-- server print; orderings of the ring's atomics other than interleavings; the Python relay and the
-- dashboard under monitor/.
pub mod Prelude
pub mod Types
pub mod TreeMap
pub mod OrderBook
pub mod RingBuffer
pub mod UdpFeed
pub mod Float
pub mod Quoting
pub mod Risk
pub mod Strategy
pub mod MarketSim
pub mod Bench
pub mod Ipc
pub mod Args
