-- ===== src/Lib.antt =====
-- Service order OS service: the lifecycle of service orders of a workshop and the saga that takes
-- them from the opening over quote and payment to the execution, with customers, vehicles and
-- administrators behind an HTTP interface and a message queue.
--
-- How the program works. A request opens an order, which publishes OS_OPENED; events of other
-- services come back over the queue or over HTTP, move the order along its status machine, and make
-- the service publish the next event. A ledger of processed identifiers keeps a message from being
-- applied twice. Customers, vehicles and administrators are kept in repositories whose use cases
-- guard the uniqueness of emails, documents and plates.
--
-- Which file models which part (paths from the repository's root):
--   Domain/Order/Base     src/domain/service_order.py, method by method; `transition` is `_transition`,
--                         `append_record` is `_record`, `open_order` is `ServiceOrder.open`. Order/Spec
--                         describes the state machine apart from the code, Order/Methods and Order/History
--                         compare the two, and Order/Safe keeps histories along a method's steps.
--   Domain/Event, Party   src/domain/events.py, customer.py, vehicle.py, admin_user.py, auth.py
--   Domain/Validation     src/domain/validation.py
--   App/Ports, PartyPorts src/application/ports.py
--   App/Opening, Saga, Customers, Vehicles, Admins
--                         src/application/use_cases.py; every `execute` is a function of the command and
--                         of the state. App/Saga/Spec describes the saga apart from `_apply`,
--                         and the modules Stored what the use cases rely on in a repository
--   App/EventHandler      src/application/event_handlers.py
--   App/System            all openings and events that reach one repository, as a relation; Modes
--                         compares two repositories that hold the same orders
--   Memory                src/infrastructure/repositories/in_memory_*.py and the ledger in memory of
--                         processed_event_repositories.py
--   Messaging             src/infrastructure/messaging; Process also models src/worker.py
--   Sql                   src/infrastructure/repositories/sqlalchemy_*.py and the ledger over SQL of
--                         processed_event_repositories.py, over the tables of Sql/Table. Sql/Schema is
--                         sqlalchemy_metadata.py with the columns that the repositories declare, and
--                         Sql/Migrations is alembic/env.py and alembic/versions/001_initial_schema.py
--   Config                src/infrastructure/config/settings.py, src/infrastructure/database,
--                         src/infrastructure/runtime.py and the routes of health
--   Http                  src/presentation and src/infrastructure/security/jwt_service.py; App is src/main.py,
--                         Logging is src/infrastructure/logging.py
--   Deploy                scripts/deploy: EnvFile is the file that both scripts read, EnvFields and
--                         PrepareEnv are prepare_env.py, Images and Manifests are
--                         render_k8s_manifests.py. PrepareEnv/Edits takes the preparation apart into the
--                         writes that it makes, and Pipeline runs both scripts in turn
--   Text                  the methods of str that all of these use
--   Tests                 the theorems at concrete inputs
--
-- How the code is read. A method that changes state is a function from the state before it to its
-- result and the state after it (Exec); what it raises is a value of Result, and the state after a
-- raise is kept. ValueError and KeyError are constructors of Exn, all others are one. What a call
-- draws from the clock or from uuid4 is an argument. A dict is the list of its items in insertion
-- order. The object that a repository hands out may be the one that it holds: `written` of the
-- order port says what changing it does to the repository. Values of JSON are a data type; a number
-- in it is kept by its text and by whether it is 0. Python's `str` on such values, `repr`,
-- `str.casefold`, `datetime.isoformat` and `fromisoformat`, `json.loads` and `json.dumps` are
-- parameters, and so are the client of the broker (pika), the library of tokens (jose), the
-- password hasher (passlib), the decimals of Unicode, urlsplit and urlparse, and what pydantic
-- reads from the environment and takes for an email. The tables that Alembic migrates are a dict of
-- their columns. A table of SQLAlchemy is a record of its calls and of their documented behaviour:
-- a call is a session that commits or rolls back, and a primary key has one row at most.
-- EnvValidationError is a ValueError, and SystemExit is one of the other exceptions. No recursion
-- needs fuel.
--
-- Not modelled: the registration of routes with FastAPI (main.py), metrics, the clock, the command
-- lines of the scripts, and the creation of engines, all of which are calls of libraries.
pub mod App
pub mod Config
pub mod Deploy
pub mod Domain
pub mod Exec
pub mod Http
pub mod Json
pub mod Memory
pub mod Messaging
pub mod Prelude
pub mod Sql
pub mod Tests
pub mod Text
