-- ===== src/Lib.antt =====
-- A model of modern-cpp-kafka, a header-only C++ client library for Kafka on top of librdkafka, and
-- theorems on it.
--
-- The program's parts. KafkaClient is the base of the three clients: it checks the properties, makes
-- the librdkafka handle and serves callbacks. KafkaConsumer keeps what is assigned and subscribed, waits
-- for rebalance events, polls records and commits their offsets. KafkaProducer hands records to
-- librdkafka and keeps each delivery callback in a memory block (an opaque) until the delivery is
-- reported. AdminClient makes requests and gathers their errors. KafkaRecoverableProducer makes its
-- producer again after a fatal error, and UnorderedOffsetCommitQueue finds the offset to commit where
-- records are acked out of order. The console tools are programs over these: one for topics, one that
-- prints records, one that sends lines, and a performance test of a producer and of a consumer, whose
-- main thread, delivery callbacks and reporter thread share the figures of each period.
--
-- Which file models which part:
--   Prelude, Outcome, Containers  names that all share; how a C++ call ends (value, exception, undefined
--                     behaviour); std::map and std::set as ascending association lists
--   StdText           std::stoi, std::stoull and std::to_string
--   Types, RdKafka    include/kafka/Types.h; the conversions of include/kafka/RdKafkaHelper.h
--   OffsetQueue       include/kafka/addons/UnorderedOffsetCommitQueue.h: Heap is the class template
--                     (push, pop_front, front), CommitQueue the queue (waitOffset is wait_offset,
--                     ackOffset is ack_offset, popOffsetToCommit, lastPoppedOffset); CommitQueue/Spec
--                     says what the queue promises, by marks on the offsets received so far
--   Properties, Error include/kafka/Properties.h and include/kafka/Error.h
--   Client            include/kafka/KafkaClient.h: validateAndReformProperties, setLogLevel,
--                     timeouts; Client/Setup for the constructor, Client/Callbacks for the callbacks,
--                     Client/Metadata for fetchBrokerMetadata and include/kafka/BrokerMetadata.h,
--                     Client/Logging for doLog and include/kafka/Interceptors.h, Client/Polling for
--                     pollEvents and the polling thread
--   Consumer          include/kafka/KafkaConsumer.h: the state is the record Consumer; Assignment
--                     (changeAssignment, assign, onRebalance), Subscribe (subscribe, unsubscribe), Poll
--                     (poll, commit, commitSync, close), AsyncCommit (commitAsync),
--                     Position (seek, pause, resume, getOffsets,
--                     offsetsForTime, position, committed), Configure (the properties and the
--                     constructor), Lifetime for sequences of operations
--   Producer          include/kafka/KafkaProducer.h: the properties, send, the delivery
--                     callback, close, the transactions' calls; Producer/SyncSend for syncSend
--                     and what its callback stores, Producer/RecordMetadata for
--                     include/kafka/ProducerCommon.h
--   Admin             include/kafka/AdminClient.h
--   Recoverable       include/kafka/addons/KafkaRecoverableProducer.h: one turn of the poll thread's
--                     loop is turn, and the loop is turns; Operations has what forwards to the producer
--   Metrics           include/kafka/addons/KafkaMetrics.h: get and getResults on a parsed document,
--                     Metrics/Texts for its texts
--   Log               include/kafka/Log.h: LogBuffer is a text and a place in it
--   Texts             the toString of include/kafka/Types.h, Error.h, Header.h, Timestamp.h,
--                     ConsumerRecord.h, ProducerRecord.h and BrokerMetadata.h, the headers of a
--                     record, and KafkaException::what
--   Tools             tools/console_clients: Options for the key=value words, Topics, ConsoleConsumer,
--                     ConsoleProducer, ProducerPerf and ConsumerPerf for the five programs, with
--                     parse_arguments for the command line and main or the sending and receiving
--                     loops; ProducerPerf/Periods has the steps of the three threads, in which a
--                     delivery callback counts the message and then writes each other figure of it
--
-- How the code is translated. An operation takes the state and gives the state and an Outcome, which
-- is a value, an exception, undefined behaviour or used-up fuel. librdkafka is the environment: what its
-- calls return is an argument of each operation, and the calls made of it are recorded where their
-- order matters. Polling until a time limit is a list with one entry for each poll that is made before
-- the limit, so that a theorem on all lists is one on all timings.
--
-- Bounds and fuel. Offsets and partitions are unbounded integers, since 2^63 records are never reached;
-- timeouts and numbers read from properties or arguments have the range of int or of 64 bits, and
-- differences of times wrap at 64 bits where the code subtracts unsigned numbers. Counters of messages
-- and sums of latencies are unbounded. The number of records that are due is
-- computed with doubles of 53 bits, which round to the nearest (ProducerPerf/Doubles), by as many
-- doublings as there are bits to gain or lose; the positions of
-- the percentiles are arguments. The heap's loops have the length of the vector as
-- fuel, and each turn of ackOffset removes an acked offset, so that their number is enough. A loop on
-- what the environment does, such as polling, takes that as a list, and runs out of fuel at its end.
-- The producer's sending loop is also followed alone, without a step of another thread between; what
-- holds of the figures however the threads interleave is shown on the relation of steps.
--
-- Not modelled: the terminal and the formatting of numbers for it, help texts, the JSON parser, the
-- local time zone (the text of a time is a parameter), random strings, the mutex of the recoverable
-- producer (its operations stand between the turns), examples and tests, and what a user's callback
-- does with the client itself.
pub mod Prelude
pub mod Outcome
pub mod Containers
pub mod Types
pub mod RdKafka
pub mod Consumer
pub mod OffsetQueue
pub mod StdText
pub mod Properties
pub mod Error
pub mod Client
pub mod Producer
pub mod Admin
pub mod Recoverable
pub mod Metrics
pub mod Tools
pub mod Texts
pub mod Log
