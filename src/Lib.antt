-- ===== src/Lib.antt =====
-- Verification of go-amqp-adapter, a Go package that publishes to and consumes from RabbitMQ.
--
-- The program. `New` (queue.go) makes a store of clients from a configuration, which options.go
-- checks. Each publisher and each consumer is a client (client.go) with a connection and a channel
-- of its own, which a reconnect loop keeps up: it dials, opens a channel, declares the queue and
-- marks the client ready, again and again. `Publish` finds the publisher of a queue and calls its
-- `push`, which publishes and waits for the confirmation of the broker, and tries again until it
-- has one. A consumer runs a loop (consumer_loop.go) that waits for its client, subscribes, and
-- handles one message after another (delivery.go); how the handler ends decides between ack, nack
-- and reject, and a rejected message comes back through a delay queue until its deadline, a header
-- that the publisher wrote. `Shutdown` closes all clients and waits for the handlers at work.
-- otel/propagation.go builds and reads the headers for the correlation id and the trace.
--
-- The files, and what they model.
--   Base            library names, Boolean tests, lists and dictionaries; Base.Int has Go's integers
--   Samples         values on which the theorems are run, in the modules called Tests
--   Errors          errors.go and the error values of Go; Errors.Chain errors.As; Errors.Retryable
--                   retryable.go
--   Config          config.go, interfaces.go and the types of options.go; Config.Options the setters
--                   and defaults; Config.Validate validateConfig
--   Broker          what the code calls and does not implement, with the monad of calls
--   Topology        initQueue and initQueueWithRetry of client.go; Topology.Plan the calls they should
--                   make, Topology.Cycle what the declared queues do with a message
--   Time            the layouts of package time: calendar, RFC 3339 and the legacy format of client.go
--   Client          the record of a client; Client.Link the reconnect loops, Client.Push publishing,
--                   Client.Close, Client.Consume, Client.Expiry isExpired; two step relations:
--                   Client.Push.Confirms the channel of confirmations that the pushes share, and
--                   Client.Race a push beside the reconnect loop
--   Delivery        delivery.go; Delivery.Lifetime the deliveries of one message up to its ack
--   Consumer        consumer_loop.go
--   Store           queue.go; Store.Consumers AddConsumerN and InitConsumer, Store.Publish,
--                   Store.Shutdown; two step relations: Store.Reachable over the methods, and
--                   Store.Shutdown.Inflight Shutdown beside the loops of the consumers; Store.Contract
--                   the interface Queue of interfaces.go against an abstract machine
--   Otel            otel/propagation.go
--   Examples        the programs under examples/, a module for each; Examples.Failed.Store the store
--                   of failed jobs
--
-- How the code is translated. A function that acts takes the history of all events so far and
-- returns a longer one; a method of a client takes a state, the client and the history. An error is
-- a value of `Result`; a run-time panic of Go, such as the use of a nil channel, is `crash`.
-- Package amqp091-go, the broker, the clock, the handlers and the caller's context are the record
-- `Env` and further parameters, on which nothing is assumed but what a theorem names: any reply may
-- come at any time. A Go channel that is only ever closed is a Boolean. A map is an association
-- list in the order of its iteration, so that a theorem holds for every order. The clients in a
-- store may be in any state: their reconnect loops write them, which is modelled in Client.Link,
-- and is a step of its own in Store.Reachable.
--
-- Schedules. The reconnect loop, `push` and the consumer's loop run as long as the program does.
-- They are modelled on a list of rounds: a round says which case each `select` takes, what other
-- goroutines have written to the client by then, and whether `close` came in between. A list that
-- is used up leaves the loop waiting, which is a result of its own; the theorems hold for lists of
-- every length. In Client.Push.Confirms, Client.Race and Store.Shutdown.Inflight goroutines move in
-- any order, a step at a time. The other functions end by themselves. int64 wraps around where the
-- code computes with it (Base.Int); times are nanoseconds since the year 0.
--
-- Not modelled. What is written to the logger (nil_logger.go, logReturnedMessages,
-- logChannelClosed), and tests. Of examples/: the HTTP server itself, the time that handlers sleep,
-- and the channels on which they signal, which are the end of a wait; what a counter or the store
-- of failed jobs holds when a handler is called is an argument. The limit of 30 seconds on a single
-- publish is part of what the broker replies. Outside those three relations goroutines run between
-- the steps of others and not within them; `pushMu`, `mu`, `closeOnce` and `startOnce` are the
-- steps. A publish reads the clock once in the model and twice in the code. A handler of failed
-- jobs that panics is left out.
pub mod Base
pub mod Samples
pub mod Errors
pub mod Config
pub mod Broker
pub mod Topology
pub mod Time
pub mod Client
pub mod Delivery
pub mod Consumer
pub mod Store
pub mod Otel
pub mod Examples
