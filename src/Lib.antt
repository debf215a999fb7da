-- ===== src/Lib.antt =====
-- The core of common-core's Python packages: settings, signals, messaging, scheduling, values, texts,
-- log submission and the switchboard.
--
-- Settings (src/core/python/core/settingsstore/settingsstore.py). Settings/Variant has the values of
-- settings files, Settings/Number and Settings/Fields Python's equality and dictionaries on them.
-- Settings/Merge is `_recursive_merge`, Settings/Delta is `_recursive_delta`, Settings/Access is
-- `get_value` and `set`, Settings/Files is the loading and saving: `load_settings`, `merge_file`,
-- `find_file_paths`, `recursive_delta`, `save`. The file system and the parsers of JSON, YAML and INI
-- text are the record World; that parsers build dictionaries which hold a key once is a hypothesis of
-- its own. Settings/Comments is `JsonReader` of jsonreader.py: removing comments and stripping, with one
-- round for each character of the text and one more; `json.loads` is a parameter.
--
-- Signals (src/core/python/protobuf/signal). Signals/Store is `SignalStore` of signalstore.py: slots by
-- signal name, connecting, disconnecting, emitting; the calls that slots receive are kept in the store.
-- Signals/Message is what the code reads of a message and of its descriptor. Signals/Caching is
-- `CachingSignalStore` of cachingsignalstore.py: the cache by signal name and mapping key, its replay to
-- late slots, and in Signals/Caching/Mapping `emit_mapping` and `emit_map_update`. A reader that waits for
-- a store to be complete, without a time limit, has no result before that: the parameter `arrive` gives the
-- store when the wait ends, after what other threads emitted. Signals/Writer is `SignalWriter` of
-- src/core/python/messaging/zmq/protobuf/signalwriter.py, a client of the store.
--
-- Zmq (src/core/python/messaging/zmq). Zmq/Rpc is protobuf/requesthandler.py, server.py and client.py
-- with basic/responder.py: requests, handlers, replies and errors, the loop of the server over the
-- requests that arrive, and the call of a client to such a server. Serialization is the record Codec,
-- whose laws are that what is encoded is decoded. Zmq/Topics is basic/publisher.py, subscriber.py and
-- messagehandler.py: the topic of a message, the handlers of a subscriber and its filters. Zmq/Endpoint is
-- basic/endpoint.py: connecting, binding, and their opposites, over the calls that the socket gets;
-- Zmq/Address its addresses. A server and a subscriber meet their peers in the messages only: what is
-- sent is received in the order it is sent.
--
-- Grpc (src/core/python/messaging/grpc). Grpc/Watch is `Watch` of request_handler/signal_request_handler.py:
-- opening a stream of the signals that a filter selects, over the caching store of the server, and the
-- queue between; Grpc/Client is client/signal_client.py with the threaded reader of readers.py, over the
-- store of the client. The slot of a stream is the number of its queue. A queue has a number of places,
-- zero for no limit; None, which Python's queue does not take, is left out. Grpc/Mirrored puts the two
-- together: a stream is a sequence of signals that the server emits and of messages that it yields.
--
-- Scheduler (src/core/python/core/scheduler.py). Scheduler has the alarms (`_locks`), the tasks and the
-- steps that threads take under the mutex; Scheduler/Steps makes them a relation, so that any
-- interleaving of threads is a sequence of steps. Scheduler/Retries is the loop of `_runTask`, over the
-- list of what each wake-up finds: that the task is no longer listed, or what the method does. Times are
-- counts of ticks: what `_tickCount` makes of a time, and the slot that the alignment of a task gives, are
-- arguments, since the code computes them in floating point. The clock is taken not to run
-- before the start of the scheduler, and delays not to be negative.
--
-- Values (src/core/python/protobuf/variant/variant.py): the codec between native values and `Value`
-- messages. Which integers the message fields take is a parameter, since the message definitions are
-- not part of the repository.
--
-- RoundRobin (src/core/python/core/roundrobin.py): the queue that discards its oldest items. Its loop
-- takes as fuel one more than the items in the queue, one round for each item that may have to go and
-- one for the new item.
--
-- Multilogger (src/mantle/multilogger/python): `ThreadedSubmitter` of base/threaded_submitter.py, a client
-- of RoundRobin, and the queue's iterator of grpc/client.py. Any interleaving of the caller with the
-- worker threads is a sequence of steps; a call of the submitter is one step.
--
-- DataSignal (src/core/python/core/signalstore/datasignal.py): a signal with slots by handle, which may
-- keep the last value for slots that connect late.
--
-- Expander (src/core/python/core/stringutils/stringexpander.py): the scanner of texts with placeholders,
-- with one round for each character of the text and of the lines of its stream, and one more. What a
-- placeholder evaluates to is a parameter. Expander/Unescape has the escapes, Expander/Grammar the
-- texts that are written with placeholders, and what they mean.
--
-- Intervals (src/core/python/core/timeutils/timeinterval.py): Intervals/Printing is `to_string` and its
-- formats, Intervals/Parsing is `from_string` with its pattern, Intervals/Conversions is what an interval
-- is made from. An interval is a whole number of nanoseconds, the smallest time that is printed;
-- the code has a floating-point number of seconds, whose rounding is not modelled.
--
-- TimePoints (src/core/python/core/timeutils/timepoint.py): TimePoints/Printing is `to_string` with
-- `to_iso8601_string`, for times from the epoch on, TimePoints/Conversions is what a time point is made
-- from. A time point is a whole number of nanoseconds since the epoch, as an interval. TimePoints/Calendar
-- has the calendar of Python's `time` and `datetime`, with one round for each 365 days and one more; the
-- zone of the system, `datetime.fromisoformat`, reading a number from a text, the decimals that are printed
-- of a fraction, which the code cuts from a floating-point product, and what `autoscaled_from` makes of a
-- number by floating-point divisions are parameters. Sums and differences, of floating-point numbers, are
-- left out.
--
-- Names (src/core/python/core/stringutils/common_prefix.py, src/core/python/protobuf/utils/enum.py): the
-- names of an enumeration without their common prefix, for delimiters of one character.
--
-- Versions (src/core/python/protobuf/version/version.py): version messages, read from texts. Which
-- numbers the fields of the generated message take is a parameter.
--
-- Switchboard (src/mantle/switchboard/python): Switchboard has the client's board of switches of
-- base/baseboard.py, fed by signals whose actions are those of Signals/Message. Switchboard/Remote is
-- base/switch.py with grpc/remote_switch.py: the requests of a switch, or what they raise, with its
-- localizations and targets in modules of their own, over Switchboard/Messages. Switchboard/Edits puts the
-- two together: each request is answered by an announcement, on the board, of the specification that the
-- server makes of it, by `update_spec` of src/mantle/switchboard/cpp/impl/native/local-switch.c++. The
-- members of State and subscribing a message's map are parameters.
--
-- Base has what all of these share: Boolean tests, lists, integers and their digits over the native
-- numbers, texts, types with an equality test, dictionaries, and results. Tests has runs on small inputs.
--
-- A Python `dict` is an association list in insertion order, an `int` an integer without bounds, a
-- `float` its 64-bit pattern. A text is a list of the codes of its characters where the code scans it;
-- patterns are read for ASCII texts. Not modelled: what sockets and the gRPC library do, HTTP, logging,
-- zones of time, threads beyond the steps above, and messages beyond the fields that the code reads.
pub mod Base
pub mod DataSignal
pub mod Expander
pub mod Grpc
pub mod Intervals
pub mod Multilogger
pub mod Names
pub mod RoundRobin
pub mod Scheduler
pub mod Settings
pub mod Signals
pub mod Switchboard
pub mod Tests
pub mod TimePoints
pub mod Values
pub mod Versions
pub mod Zmq
