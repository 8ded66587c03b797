-- ===== src/Lib.antt =====
-- The core of wickra-exchange, a library of exchange clients with one unified interface
-- (crates/wickra-exchange-core). A strategy talks to an `Exchange`: a client of a venue, the paper
-- exchange or the replay exchange. Of the ten venue clients those of Upbit and Coinbase are
-- modelled, and of Binance's the names and parsers; the others are built alike. Below a venue client
-- stand the throttled transport (with the rate limiter and the backoff policy), the signing
-- primitives and the reconnect helper; beside them the local order book, the instrument cache, the
-- clocks and the dead-man's switch.
--
-- Files, by the part of crates/wickra-exchange-core/src that they model:
--   Error: error.rs. Options: options.rs. Symbol: symbol.rs. Types: types.rs. Events: events.rs and
--     the frames of feeds.rs. Feeds: the conversions and the tick builder of feeds.rs. Observability:
--     observability.rs.
--   OrderBook: orderbook.rs, `OrderBookBuilder` with its methods under their names; the sides are
--     maps from price to quantity. Invariant, Updates, Replay, Best and Export hold its theorems.
--   Paper: exchanges/paper.rs, the portfolio, and in Paper/Execution its `Execution` and `MarketData`
--     methods. A method on `&mut self` returns the new state with its result. Balances and Units are
--     lemmas on the portfolio; Invariant, Preservation, Placing and Session its invariant;
--     Refusals, Closing and Effects what the operations achieve.
--   Replay: exchanges/replay.rs, over Paper.
--   RateLimiter: ratelimiter.rs. Retry: retry.rs. Throttle: throttle.rs, over both and over Transport,
--     the data of transport.rs; its scripted transports are in Transport/Mocks, and the reading of a query
--     that the requests are held against in Transport/Query.
--   WsUtil: wsutil.rs; what a reconnect has to end with is in WsUtil/Reopening. Instruments: instruments.rs. Clock: clock.rs and deadman.rs.
--   Reconcile: reconcile.rs. ClientIds: idempotency.rs. Positions: positions.rs.
--   Venue: what the clients share (exchanges/mod.rs), their calls on a state, and the loop that drains
--     a stream. Upbit: exchanges/upbit.rs; the mappings stand in Upbit, the client's state and its
--     signed requests in Upbit/Client, its methods in Upbit/Calls under their names (`get` is
--     `public_get`), the parsers in Upbit/Parse and Upbit/Replies. Requests, Refusals, Polling and
--     WireSymbol hold its theorems.
--   Coinbase: exchanges/coinbase.rs, laid out in the same way, with the frames of the stream in
--     Coinbase/Frames and the order configurations in Coinbase/Orders. Configurations and
--     Written are lemmas on them; ReadBack holds its theorem.
--   Binance: exchanges/binance.rs, without the client's state and requests: names and encodings in
--     Binance, the parsers in Binance/Parse, Binance/Batch and, for its streams, Fields, UserStream,
--     Frames and Derivatives. Encoding holds its theorem.
--   Credentials: credentials.rs. Signing: signing.rs. Normalize: normalize.rs.
--   Platform: the libraries that a venue client calls. wickra-core is a parameter of Feeds.
--   Prelude, OrdMap and Decimal are shared: numbers, machine words, text, lists; the standard
--     library's maps; and the interface of `rust_decimal`.
--
-- How the program is read:
--   Integers wrap as they do in a release build (`u32` and `u64` by `%`, `i64` by two's complement);
--     the theorems say where a result must fit. Text is a list of UTF-8 bytes, and a duration a number of
--     nanoseconds.
--   `Decimal` is an interface, since the program only calls it. Theorems on balances take two records
--     of hypotheses about it (Decimal/Exact): sums and differences within its range have no round-off,
--     and products and quotients respect the order. Decimal/Integers is an instance of them. Runs in
--     which a decimal operation panics on overflow are outside the model, and two decimals that compare
--     equal are one value.
--   A map of the standard library is the list of its entries in key order.
--   The injected parts of the throttled transport (inner transport, clock, sleep, jitter, weigher) and
--     its `f64` arithmetic are one interface over a state of any type; so is the network of the
--     reconnect helper. The retry loop runs on fuel, one more than the retries: each round but the last
--     uses up one.
--   A venue client is given a platform (JSON, the text of decimals, digests, encodings) and a world
--     (HTTP, WebSocket, clock), interfaces over types of any kind. Its calls are functions on the
--     client's state and the world's, which stay changed where a call fails. It is used from one thread.
--     The loop that drains a stream runs on fuel; any fuel above the number of pending frames is enough,
--     since each round takes one.
--   `NonceGenerator::next` is a machine whose steps are the atomic operations of any number of threads;
--     a relaxed load and a failed exchange may give any value.
--
-- Not modelled: the client of Binance beyond its names and parsers, the other seven venue clients,
-- serialization, tracing, the factory, the bindings, and the network adapters. The other clients
-- are built alike; the rest calls other libraries, or is glue.
pub mod Prelude
pub mod OrdMap
pub mod Decimal
pub mod Platform
pub mod Credentials
pub mod Signing
pub mod Normalize
pub mod Error
pub mod Options
pub mod Symbol
pub mod Types
pub mod Events
pub mod OrderBook
pub mod Paper
pub mod RateLimiter
pub mod Clock
pub mod Transport
pub mod Retry
pub mod Throttle
pub mod Replay
pub mod WsUtil
pub mod Venue
pub mod Feeds
pub mod Observability
pub mod Upbit
pub mod Binance
pub mod Coinbase
pub mod Instruments
pub mod Reconcile
pub mod ClientIds
pub mod Positions
