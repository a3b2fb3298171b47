-- ===== src/Lib.antt =====
-- A model of nntppool, an NNTP connection pool in Go, and what is proved of it.
--
-- The pool sends a request to one of several providers, each with its own connections, limits and
-- circuit breaker, and falls over to the next when an answer is not conclusive. Its parts, and where
-- each is modelled (paths from the repository's root):
--
-- - Breaker (circuit_breaker.go): the breaker of one provider. `acquire`, `complete`, `prune_failures`
--   (pruneFailuresLocked), `open_locked`, `reset_locked` and `snapshot` are functions on the record
--   `Breaker`; the clock's readings are arguments. Breaker/Exclusive.antt interleaves any number of
--   requests on one breaker as a step relation; a step needs a generation below the last uint64.
-- - Errors (errors.go, nntp.go): errors as trees, `is` and `as_net` for errors.Is and errors.As, and
--   `to_error`, `with_error_classification`, `is_connection_death_error` and their kin.
-- - Outcome (errors.go): `operation_from_payload`, `classify_outcome`, and `new_transport_error`, whose
--   loops are `summarize` and `find_last`.
-- - Attempt (nntp.go, errors.go, circuit_breaker.go): a request and its response,
--   `build_attempt_evidence`, and `classify_circuit_breaker_completion`, by which the evidence of an
--   attempt reaches the breaker.
-- - Reader (reader.go): the response decoder. `feed` is Feed and `decode` is decode, whose loop over
--   lines takes fuel, one unit for each line; `feed` gives one more than the buffer has bytes, and a
--   line has two at least. The incremental decoder of package rapidyenc is the parameter `y`, the
--   caller's writer the parameter `write`. `validate_body` is validateBody.
-- - Gate (nntp.go): `connGate`, which bounds the connections of a provider and throttles them.
-- - ReadBuffer (readBuffer.go): the buffer between a socket and the decoder, and the loop that feeds
--   one from the other. The socket is a list of events, the decoder and the control function are
--   parameters; each turn of the loop takes one event or ends, which bounds the fuel.
-- - Connection (nntp.go): `NNTPConnection` and runConnSlot. Writer.antt has the goroutine that writes
--   (Run) as functions between the places where it can wait, Replies.antt the one that reads
--   (readerLoop) and `step`, by which the two interleave in any order; `run` is a list of such steps.
--   `seek` is the choice of a connection of a pool, `seek_alone` that of one without channels of
--   priority; `drain` is waitForInflightDrain, and `release` gives back what an answered request holds,
--   one semaphore in a step.
--   Watch.antt has the function by which readerLoop bounds the reading of a response, Handshake.antt the
--   greeting and AUTHINFO, Laps.antt one lap of runConnSlot. What channels, contexts, timers and the
--   socket answer is an argument of a step.
-- - Dispatch (nntp.go): quotas, the timeout of an attempt, `dispatch_weights`, and the provider that a
--   request starts with (the beginning of doSendWithRetry). Floating point is the parameter `fl`.
-- - Send (nntp.go): the way of a request. `try_group` is tryGroup, `try_group_resilient`
--   tryGroupResilient, `race_candidates` raceCandidates and `do_send` doSendWithRetry. All that is
--   outside a request (connections, contexts, clock, registry, breakers and quotas of the groups) is
--   the state of a `World`, a parameter. The loop of tryGroupResilient takes fuel, one unit for each
--   attempt; four units, and one for each old connection that may ask for a fresh one, are enough. The
--   parallel probes of a race are made in the configured order, in which the code reads their results.
-- - Registry (nntp.go): the providers of a client, and how their parameters are resolved. `new_client`
--   is NewClient, `add_provider` AddProvider, `remove_provider` RemoveProvider and
--   `reset_provider_quota` ResetProviderQuota; each is one step, though the code holds no lock over it.
-- - Client (client.go, stat.go): what the calls make of a reply: `parse_stat`, `finish_body`,
--   `body_targeted`, `stat_one`, and `do_send_post` with `finish_post`. What handing an article to a
--   provider comes to is the parameter `post`, which may be that no answer ever comes.
-- - Post (post.go): `validate` and `fold_header_line`, whose loop takes the length of the line and one
--   as fuel, as each turn shortens what remains. strings.TrimSpace is the parameter `trim_space`.
-- - Base: bytes, lists, 64-bit integers and the numerals of package strconv.
--
-- Numbers that the code keeps in an int are ℕ where they cannot be negative and ℤ otherwise; sums in
-- int64 that can leave the range wrap. Not modelled: the counters of a
-- connection, dialing and TLS, the channels between the client's
-- calls and the goroutines of a request, the writing of articles, and the speed test command.
mod Base
pub mod Breaker
pub mod Errors
pub mod Outcome
pub mod Reader
pub mod Attempt
pub mod Gate
pub mod ReadBuffer
pub mod Dispatch
pub mod Post
pub mod Send
pub mod Connection
pub mod Registry
pub mod Client
