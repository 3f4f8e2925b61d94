-- ===== src/Lib.antt =====
-- Models of chattice, a framework for Google Chat applications: events arrive by HTTP or by a Pub/Sub
-- subscription, a dispatcher routes them to handlers, and handlers keep conversation state and answer.
--
-- The program's parts and where they are modelled (paths from the repository's root):
--
-- Base, Dict: shared names, Boolean tests, lists, equality as an interface, Python's `dict` as an
-- ordered association list, and in Base/Text `str.strip`, `str.isdigit`, `int(...)` and `str(...)` of texts.
-- Exceptions, Effects: src/chattice/exceptions; coroutines as actions that read and change a state and
-- whose exceptions are values. `Exception`, the routing controls and `CancelledError` are told apart,
-- since the `except` clauses do.
-- Events: src/chattice/events, the domain events that the other parts read.
--
-- Idempotency: src/chattice/idempotency.py. Idempotency/Contract is the protocol of `claim`, `complete`,
-- `release` and `renew` for one key as a state machine; Idempotency/Memory the in-process storage, each
-- method one function with its clock readings as arguments, since the body under a key's lock does not
-- wait. Idempotency/Memory/Refines relates the two. Idempotency/Redis is the Redis storage: its loops run on a
-- list of rounds, each with what other clients do before the read and before the EXEC, and end `running` when the
-- list does; one round in which the key is left alone is enough. The Redis client and `json` are a `Server` with
-- its laws; keys are Redis keys, with their prefix.
--
-- Fsm: src/chattice/fsm. Fsm/Key the storage keys, Fsm/Memory the in-process storage, Fsm/Record the records
-- with a revision and an expiry and their `compare_and_set`, Fsm/Record/Storage the storage over
-- records, whose reads and writes other tasks may come between: their calls are part of a `Round`. The
-- retry loop of `update_data` runs on a list of rounds, which is its fuel, and ends `running` when
-- the list does: a round without interference is enough. Fsm/Contract is what both storages promise,
-- Fsm/Json the check of JSON values, Fsm/Context the `FSMContext` and the state filter over any storage that
-- keeps the contract.
--
-- Filters: src/chattice/filters/magic.py, the expression tree of the filtering DSL. What Python's objects
-- answer to attributes, items, comparisons and methods is a parameter.
--
-- Forms: src/chattice/forms.py, the decoding of typed form inputs into a form model and the filter that
-- does it (Progress, Decoding, Matching). A model is the list of its dataclass fields: the type without `Optional`
-- and whether there is a default; the reflection that finds them is left out.
--
-- GoogleChat: src/chattice/adapters/google_chat, the way from the JSON that Google sends to a domain event.
-- Values the JSON values and the failures of the adapter; Envelope `normalize_envelope`; Inputs the form
-- inputs; Models what the validation by pydantic yields; Parser `parse_interaction`, with the common parts in
-- References and the action in Actions. Python's `==` of two JSON values, the validation (`model_validate`),
-- `datetime.fromisoformat` and the digits of Unicode are parameters. The payload that an event keeps as `raw`
-- is left out, and the deep copies are the values themselves.
--
-- Actions: src/chattice/actions.py, the codec of typed action data and its filter. A model is the list of
-- its dataclass fields; floats with `repr`, `float` and `isfinite` are parameters.
--
-- Client: src/chattice/client. Names the resource names; Paging `Pager.collect` over what the SDK's pager
-- yields; Errors the mapping of SDK errors; Bot the credentials and clients, one call at a time; Executor
-- the path of every remote call; Messages `Messages.create` and the upload that it may start, with the other
-- operations of messages in Editing; Spaces, Memberships and Reactions their resources. Providers of
-- credentials, remote calls, and the resolution of card assets are parameters, and each remote call is
-- written down with its operation and the client that makes it, the one of the primary or of the user's
-- credentials. `markup_syntax`,
-- timeouts and request configurations are left out.
--
-- Dispatcher: src/chattice/dispatcher and src/chattice/filters/base.py. Scope the context dictionary, which
-- filters and middleware change in place and of which each observer and each candidate gets a copy;
-- Filters `evaluate_filters`; Handler the dependency plan; Middleware the wrapping loop; Router the
-- tree and its walk; Inclusion how the tree comes about, on a store of routers whose identities are numbers,
-- where the fuel of `_contains` is above the height of the forest; Routing `_route_event`, `_route_pass` and
-- `_invoke`, with the tags of exceptions in Tags and the way of a pass in Walking; Feed `feed_update`.
-- Filters, middleware, callbacks and hooks are any actions on the world.
--
-- Lifespan: src/chattice/dispatcher/lifespan.py, start in order, roll back and close in reverse.
--
-- Capabilities: src/chattice/capabilities, the registry of outbound operations with its table, and the
-- capabilities of a response channel.
--
-- Pubsub: src/chattice/transports/pubsub_runner.py. Pubsub/Runner is `_handle`, one delivery from its claim to its
-- `ack()` or `nack()`, with `_answer` and `_notify_poison`; the storage, the dispatcher, the bot, the locks and
-- the hooks are an `Outside`. It is instantiated by any storage of Idempotency and any dispatcher. Its
-- child modules hold what the parts leave unsettled (Silence), that they end ordinarily (Calm), the
-- verdict on a delivery (Verdict), the deliveries without an attempt number (Unnumbered), and those
-- that are cancelled (Faults).
--
-- Pubsub/Locks is `_KeyedLockRegistry`: the tasks between `acquire` and `release` are part of the state, and
-- a step relation lets them arrive, be given a lock, be cancelled and release in any order. Whether a
-- lock is free is a function of its number.
--
-- Tests: runs on concrete inputs, and each theorem at an input that satisfies its hypotheses.
--
-- Machine integers do not occur: clock readings and lengths are natural numbers, and the integers of payloads are
-- ℤ. Structural recursion runs every loop but those of `update_data`, of the Redis storage and of `_contains`.
--
-- Not modelled: logging; the lease renewal task and the start and drain of the subscriber; the Redis
-- storage of records; registration and signature inspection of handlers; users, downloads and
-- the metadata of attachments in the client, its concurrent initialisation and its close; the cards, media, the
-- HTTP transport and the Workspace events.
pub mod Base
pub mod Dict
pub mod Exceptions
pub mod Effects
pub mod Events
pub mod Idempotency
pub mod Fsm
pub mod Filters
pub mod Forms
pub mod GoogleChat
pub mod Actions
pub mod Dispatcher
pub mod Lifespan
pub mod Capabilities
pub mod Client
pub mod Pubsub
pub mod Tests
