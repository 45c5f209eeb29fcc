-- ===== src/Lib.antt =====
-- go-rabbitmq: delivery assurance of the publisher, message handling of the consumer, the health
-- verdicts on both, and the topology service, and beside them the client's reconnection, compression,
-- the saga manager, the connection pool and the shutdown manager.
--
-- The program. A Publisher with delivery assurance (publisher.go) registers each message in a sharded
-- map (pending_map.go), sends it on a confirm channel, and decides it when a confirm, a return, a
-- timer or the channel's death says so; it then reports the outcome by one callback from a goroutine,
-- or publishes the message again. A Consumer (consumer.go) decodes a delivery, runs the handler, and
-- acknowledges, requeues, republishes or dead-letters the message. Both keep state from which Health
-- and Assess (health.go, consumer_health.go, publisher_health.go) give a verdict; backoff.go spaces
-- redeliveries. A saga (saga/saga.go) is a list of steps; its manager keeps it in a store, takes step
-- and compensation messages from two queues and publishes the next ones. A pool (pool/pool.go) hands
-- out clients that it checks and repairs. The admin service (admin.go) declares exchanges, queues and
-- bindings, and notes them in a registry, from which a validator (topology_validation.go) restores
-- what the broker has lost. A shutdown manager (shutdown/shutdown.go) closes components and waits for
-- operations in flight. Below them all a Client (client.go) keeps a connection and the state of it. A
-- publisher may compress (compression/compression.go) and encrypt a body, which a consumer undoes.
--
-- The files.
--   Message: types.go (Message, DeliveryOptions, DeliveryOutcome, DeliveryStats) and header values.
--   PendingMap: pending_map.go; store, load_by_message_id, load_by_delivery_tag, delete_pending and count
--     are its methods, PendingMap/Fnv is the hash of getShard.
--   Publisher/State: publisher.go, pendingMessage, publisherConfig, confirmGeneration and the Publisher.
--   Publisher/Handlers: the sections of handleConfirmation, handleReturn, tryFinalizeMessage,
--     handleMandatoryGracePeriodExpired, handleTimeout and settleOrphan under a message's lock. Each
--     gives the message and its effects on the rest: counters, failures, goroutines.
--   Publisher/Effects: the effects carried out, and the handlers from their look-up on; failOrphans.
--   Publisher/Track: publishTracked, in two halves before and after the send (register, send_done),
--     rekeyPending, installConfirmGenerationLocked, finishAsync and retryMessage (run_task).
--   Publisher/Run: initDeliveryAssurance and the steps of the system, in any order.
--   Publisher/Settles, Books, Outcome: lemmas on each operation, by what they keep. Outcome/Backed,
--     Locked, Sections, Reports, Truthful: from a message's own outcome to what is reported of it.
--   Consumer/Delivery: Delivery with its settlement guard, Ack, Nack and Reject.
--   Consumer/Errors: handleProcessingError, getRetryCount and republishWithRetry.
--   Consumer/Process: applyDecryption, applyDecompression and processMessage.
--   Consumer/Batch: processBatch.
--   Health/Guards: connectionTrusted, latestOf and gaveUpVerdict.
--   Health/Subscriptions: the state behind Consumer.Health and its operations.
--   Health/Consumer, Health/Publisher: Consumer.Health and the two Assess functions.
--   Backoff: backoff.go.
--   Saga/State, Saga/Store: saga/saga.go, Saga, Step and InMemoryStore.
--   Saga/Run: the consumer of the step queue, on a number of messages.
--   Saga/Sending, Compensation: what a compensation publishes. Saga/Progress, Next, Completion,
--     Ending: one step, the choice of the next, and the two ends of a saga.
--   Saga/Manager, Saga/Handlers: Start, Compensate, handleStepMessage and handleCompensationMessage.
--   Pool: pool/pool.go, updateHealthyClients, Get, performHealthCheck, repairConnections and Close.
--     Pool/Rotation, Checks, Replacing, Repairs: Get in turn, health checks, and their repairs.
--   Message/Build, Message/Convert: types.go, builders, Validate and Clone; ToAMQPPublishing,
--     ToPublishing and FromAMQPDelivery. Message/Properties: what survives them.
--   Topology/Config, Topology/Options: the configurations of types.go and the options of admin.go.
--   Topology/Broker: the broker as an interface with laws, and the monad of actions on it: an action
--     gives a result or an error, and the broker and the registry that follow.
--   Topology/Literals, Topology/Admin, Topology/Declare: admin.go.
--   Topology/Registry, Topology/Settings, Topology/Validator: topology_validation.go.
--   Topology/Grows, Adds, Loops, Accepting, Exist, Restored: from one operation to a whole validation.
--   Topology/Returned, Declared, Arguments, Quiet, Drift: what a success means, what is sent, and where
--     the registry and the broker part. Topology/Memory is an instance of the interface.
--   Shutdown/State, Shutdown/Run: shutdown/shutdown.go, its sections and the steps in any order.
--   Shutdown/Coherent, Once, Refusal: what every section keeps, and what follows.
--   Client/State, Client/Reconnect: client.go, the connection state, connect and handleReconnection.
--   Client/Rounds, Ending: the rounds of a reconnection and how it ends.
--   Publisher/Encode: publisher.go, applyCompression and applyEncryption, and their order.
--   Publisher/Entry, Publisher/Attempts: publishWithDeliveryAssurance up to its attempts, and these.
--   Publisher/Attempts/Steps, Once: one attempt, and a whole call.
--   Compression: compression/compression.go. Compression/Stages, Decoded, Delivered: from the publisher
--     to the consumer. Compression/Retried: the same for a retry.
--   The files named Tests hold runs at concrete inputs.
--
-- State and interleavings. A pending message is shared by the map, timers and goroutines, so it lives
-- on a heap and is known by its address. publishMu is the field `sending`: one send is in progress at
-- most, and any other step may come while it is. A handler looks a message up and then waits for its
-- lock; so besides the whole handlers there is a step for each locked section, at any address at any
-- time, which covers every order of the locks. A grace timer runs only for a message whose timer was
-- armed for it; the sections check CallbackFired, so a timer stopped too late changes nothing. Which
-- sends may fail is a parameter of the steps. Two results assume that a send fails only while its
-- message is not decided (SendUndecided): neither a confirm nor a return nor anything else decides a
-- message whose send then fails. What a publish attempt is told is a signal: its callback is called,
-- its publish call returns an error, or a retry takes it over.
--
-- Numbers. The key `generation<<40 | tag&(2^40-1)` is written with + and %, since the bits do not
-- overlap. A duration is a number of nanoseconds, a time the nanoseconds since Go's zero time; an
-- elapsed time that would be negative is 0, which no comparison here tells apart. Counters are not
-- bounded. The int of a retry count is not wrapped: its values come from headers that count
-- deliveries. Fuel occurs in the life of a message on a classic queue (Consumer/Retries), in the run
-- of a saga (Saga/Run), in a reconnection (Client/Reconnect) and in the attempts of a publish call
-- (Publisher/Attempts), each with the number of rounds that is enough; every other loop is structural.
-- A saga's handlers run one at a time, since the consumer's concurrency is 1.
--
-- Parameters. The broker of the topology service is a record of operations (Topology/Broker) with two
-- records of hypotheses: what RabbitMQ documents of declarations and bindings, and that it is up and
-- accepts them. Elsewhere: which operations on the broker succeed, the encryptor, the formats gzip and
-- zlib with the law that a reader gives what the writer took, the handlers, which channels are closed,
-- how a client answers a ping, and the clock. The JSON in a saga message is taken as read, with an
-- error as a message of its own; the identifiers that Start draws are its arguments.
--
-- Not modelled. The set-up of a client and its monitor, the consume guard and the consume loops,
-- Close, plain Publish, the locks of refreshConfirmChannel (the step `installs` is its effect), the
-- confirm keeper, the saga manager's Run, the pool's goroutine, the goroutines that wait for a signal,
-- and streams. An exchange bound to an exchange is not an item of the broker, since the registry does
-- not keep it. Logging, metrics, tracing and the texts of verdicts have no effect on what is modelled.
pub mod Base
pub mod Message
pub mod PendingMap
pub mod Publisher
pub mod Consumer
pub mod Health
pub mod Backoff
pub mod Saga
pub mod Pool
pub mod Topology
pub mod Shutdown
pub mod Client
pub mod Compression
