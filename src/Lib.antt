-- ===== src/Lib.antt =====
-- The chat service of leaf-flow: customers and admins exchange messages in conversations, over HTTP
-- and WebSockets; every change is announced through a transactional outbox.
--
-- Parts, with the files of src/chat_service that each models:
--
-- - Domain: domain/value_objects and domain/entities. Identifiers (UUIDs, subject ids) and times (in
--   microseconds) are natural numbers, and JSON payloads are dictionaries of plain values. The status
--   "open" is the constructor `opened`, and a message's `data` is its `payload`.
-- - Errors: application/exceptions.py, with what the database and the code raise beside it.
-- - Sql: what the code relies on of PostgreSQL and SQLAlchemy. `Sql` is an interface: INSERT, UPDATE
--   and SELECT … WHERE … ORDER BY over the rows of a table, with laws that count the rows which
--   satisfy a test and say that a result is sorted. Every theorem holds for each such engine;
--   Sql/Rows has one, on lists, which the tests run on.
-- - Db: infrastructure/db. Models, Mappers and Constraints are the tables with their primary, unique
--   and foreign keys; Session is uow.py, a transaction with its own view of the database, which
--   `commit` alone makes the committed one, and the streams of identifiers and clock readings that a
--   call draws from; Conversations, Participants, Messages and MessagePages (the reader of messages),
--   ReadStates and Outbox are the repositories. Db/Cursor has the cursors of pages and their texts;
--   base64 and the texts of times and UUIDs are its interface `Codec`. Sql/Pages is about pages in
--   general.
--   Db/Valid is the invariant of the database, with what each statement does to it.
-- - Principal and Permissions: application/dto/principal.py and application/policies/permissions.py.
-- - Auth: infrastructure/auth, and the two entrances that use it: `get_current_principal` of
--   api/deps.py, and the start of a connection in api/v1/routers/ws.py. PyJWT is the interface `Jwt`.
-- - Services: services. A use case is an action of Session that may raise; Services/Validity has the
--   steps that clients, the worker and the seeding script can take, each in a session of its own.
-- - Ws: infrastructure/ws/manager.py, the sockets and subscriptions of one process.
--   Ws/Endpoint is one connection of api/v1/routers/ws.py, from its registration to its end.
-- - Bus: infrastructure/bus and `_on_pubsub_event` of app.py, the events that go through Redis to the
--   sockets of each process. Bus/EndToEnd joins the services, the worker, the listener and Ws.
-- - Process: one process as app.py puts it together. Process/Tidy interleaves its WebSocket connections,
--   message by message, with the listener and the use cases; Process/Lifespan is the `lifespan` of
--   app.py with the start and the stop of the listener's task.
-- - Settings and Workers: config.py, with the database URLs in Settings/Database; workers/outbox_worker.py, one run of `_process_batch` over the
--   outbox with what it publishes, and its loop; workers/leaf_events_consumer.py, the handlers of
--   leaf-flow's events; the loop of infrastructure/bus/redis_streams.py, over the interface `Group` of
--   what Redis keeps; Workers/ConsumerRun starts and cancels it.
-- - Api: the routers of api/v1/routers, the dependencies of api/deps.py, the status codes of app.py
--   and the correlation identifiers of api/middleware. Api/Limits has the bounds that the list
--   endpoints put on `limit`.
-- - Scripts: scripts.
--
-- How they interact: a service runs repository calls in one transaction, writes its event to the
-- outbox in the same transaction and commits; the worker takes due rows from the outbox, publishes
-- them and marks them; every process forwards what is published to the sockets subscribed to the
-- conversation.
--
-- Choices. Functions are structural recursion: no fuel is needed, but for the decimal digits of a
-- number, which are no more than the number or 1. Transactions run one after the other, but for
-- the runs of several outbox workers, which Workers/OutboxWorker/Fleet interleaves, and two
-- requests for a support conversation in Services/ConversationService/Overlap. Outbox rows that
-- another worker holds are the parameter `locked` of a session, which SKIP LOCKED leaves out. A
-- run that raises between its first event and its commit is a step of Fleet; elsewhere the
-- statements of a run succeed. The server's now() is fixed within a session. Whether Redis or a
-- socket accepts a message is a parameter. A broadcast runs in one piece, but for Ws/Interleaved,
-- where other tasks act on the manager while it awaits a send; the iterators of sets that change
-- are its interface SetIterator. The handling of one message is one step of Process, and
-- datetime.utcnow() is the same clock as now(timezone.utc).
-- Left out: the length limits of columns, lost connections, and objects that the ORM keeps
-- between queries (a row read again after an UPDATE shows the new values here). Also not
-- modelled: the request timing, the start of the processes, and what pydantic and FastAPI do
-- around an endpoint but for the bounds of `limit`.
pub mod Prelude
pub mod Domain
pub mod Errors
pub mod Sql
pub mod Db
pub mod Principal
pub mod Permissions
pub mod Services
pub mod Ws
pub mod Process
pub mod Settings
pub mod Workers
pub mod Auth
pub mod Scripts
pub mod Bus
pub mod Api
mod Tests
