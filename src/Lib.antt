-- ===== src/Lib.antt =====
-- A model of the aggregate concept transformer: the service that takes updates of concepts from a
-- queue, puts each concept together from its sources, writes it to Neo4j and Elasticsearch, and
-- tells the cache, the event topic and the notification stream of what has changed.
--
-- The parts, and the files that model them:
--   * Common, Text: the shared names; Go strings as lists of bytes, with the functions of
--     strings, strconv and regexp that the service calls. Text/Regex has FindAllString for the
--     form of the two UUID patterns, Text/Matching and Text/Search its lemmas, Text/Itoa
--     strconv.Itoa, and Text/Clean the paths that net/http does not redirect.
--   * Effects: a function that may fail and make calls, as a state passing function on the log of
--     the calls; an error is its text, and a run-time panic is a result of its own. Effects/Gives
--     is about steps whose result does not depend on the calls before.
--   * World: the data that the service exchanges (the models of concordances/, sns/ and sqs/, and
--     the concepts of cm-graph-ontology as far as the service looks into them), and the record of
--     everything that is outside the repository, on which all the definitions depend.
--   * Concordances, S3, Sqs, Sns, Kinesis: the clients (client.go of concordances/, s3/, sqs/,
--     sns/ and kinesis/): GetConcordance, GetConceptAndTransactionID, ListenAndServeQueue,
--     RemoveMessageFromQueue, PublishEvents, AddRecordToStream, and NewClient of each; Session is
--     what three of the NewClient have in common. Sqs/Keys, Sqs/Updates and Sqs/Panics are about
--     the updates that come from the queue, Sqs/Handles about their messages, S3/Keys about the
--     way of a key from the store through the queue and back, Sns/Ids about the Ids of a batch.
--   * Concept/Identifiers: extractIdentifiersFromKey. Concept/Buckets: bucketConcordances.
--     Concept/Gather: GetConcordedConcept and getConcordedConcept (Calls says which calls read a
--     concept), where Steady, Unordered and Repeat are about two runs on the same stores.
--     Concept/Paths: resolveConceptType. Concept/Writer: sendToWriter. Concept/Purger:
--     sendToPurger. Concept/Process: ProcessMessage. Concept/Health: processChannel of
--     systemHealth. Concept/Listener: ListenForNotifications and processConceptUpdate, with the
--     goroutines of a batch in Concept/Listener/Batch, and the whole run of a worker in
--     Justified, Explained, Handled and Batches. Concept/Checks: the Checkers of the health
--     checks. Concept/Service: AggregateService, NewService and the select with a deadline. The
--     Oversized modules of Concept/Process and Concept/Listener are about an update whose events
--     SNS does not take in one batch. All are of concept/service.go; Concept/Handlers is
--     concept/handlers.go (Keys, Reads, Bodies and Safe are about its key, its reads and its
--     replies), and Concept/HealthService is concept/healthcheck.go, with Healthchecks and the
--     Healthcheck of each client. Concept/Routes is RegisterHandlers of concept/handlers.go, with
--     the libraries that it calls as a record of parameters (Writes and Dispatch name what their
--     documents say, and Reads follows a request to the objects that are read); Concept/Changes
--     tells which calls can change another system.
--   * Main: main.go: the options, app.Before, and app.Action up to the service that it makes
--     (Main/Required and Main/Start); Main/Application is all that app.Action then makes, with
--     the HTTP client and the server; Main/System is the process from then on: main's goroutine,
--     processChannel and the workers, as a step relation on their places, the health, the channel
--     and the counter of the wait group. Main/System/Refinement relates it to the worker of
--     Concept/Listener.
--   * Examples: a small world, with the theorems at concrete inputs.
--
-- How they interact: a worker (Concept/Listener) reads the health, takes updates from Sqs, and
-- runs ProcessMessage on each; a request (Concept/Handlers) runs it or the read alone. The read
-- takes the key apart, asks Concordances for the records, groups them and reads their objects
-- from S3. What ProcessMessage then does is described by a plan, a list of steps
-- (Concept/Process/Plan), and by the relation between a plan and the calls that carry it out.
-- main makes the clients and the service, starts the workers and, at the end, tells
-- processChannel of the shutdown and waits for them.
--
-- Choices of the model: texts are lists of bytes; the numbers are natural numbers, since the code
-- counts and compares lengths, places and statuses only, far below the bounds of int. No
-- definition needs fuel but the printing of a number, which has as many rounds as the number and
-- one more, and the search for matches, whose limit is the one in the code. A Go map is a list of
-- entries with different keys, and the order in which range walks it is a parameter. The arm that
-- a select with a deadline takes is a parameter too; the calls of the goroutine are logged on
-- both arms. A call is logged when it is handed to net/http or to the SDK, whose answer may be
-- the error of a context that has ended; the deletion of a message is logged where it is sent,
-- which the SDK does not do with such a context. The replies of the other systems may depend on
-- all the calls before. A worker is run over a schedule: the signals that arrive before each
-- round of its loop; the goroutines of one batch are run in turn there, and in any order in
-- Concept/Listener/Batch. The values of the two authority constants are those that the tests of
-- the repository use.
--
-- Not modelled: the parsing of the command line, the set-up of net/http and of the AWS SDK (a
-- record of parameters, Setup, has what NewClient takes from it), the serving of the HTTP server,
-- and logging. The calls of the goroutines of a batch in any order are in Concept/Listener/Batch,
-- where each goroutine has a world of its own; that the answers to them come from one world is
-- left out.
pub mod Common
pub mod Text
pub mod Effects
pub mod World
pub mod Session
pub mod Concordances
pub mod S3
pub mod Kinesis
pub mod Sns
pub mod Sqs
pub mod Concept
pub mod Examples
pub mod Main
