-- ===== src/Lib.antt =====
-- relay-webhooks: a webhook delivery service. A tenant posts an event to the API, which stores it
-- with an outbox entry in one transaction (Services/Ingest.antt). The relay worker claims outbox
-- entries and makes one delivery and one stream message for each endpoint that listens
-- (Workers/Relay.antt). The dispatcher takes messages and makes attempts (Workers/Dispatcher.antt,
-- Services/Attempt.antt); an attempt that fails goes to the retry set, from which the scheduler puts
-- it back on the stream (Workers/Scheduler.antt). The reaper takes over messages that nobody
-- acknowledged (Workers/Reaper.antt). A dead delivery can be replayed (Services/Replay.antt).
--
-- The files follow the packages of src/relay:
--   Settings.antt           infra/settings.py
--   Domain/                 domain: entities, the circuit breaker, backoff, key hashing, quotas
--   Infra/                  infra: signing, the SSRF guard and the sender, the rate limiter,
--                           streams, the retry set
--   World.antt              the state of all coroutines, exceptions, and
--                           repositories/unit_of_work.py; World/Atomic.antt has the rules for
--                           all-or-nothing use cases
--   Repositories/           repositories: one file for each table, Listings.antt for the statements
--                           that read many rows, and Pagination.antt for pagination.py
--   Services/               services: attempts, ingest, replay, endpoints, API keys, sandbox, and
--                           the dead letter and metrics readings
--   Workers/                workers: one step of each loop; Workers/Dispatcher/Pool.antt has the
--                           dispatcher's tasks and their semaphores as a step relation, and
--                           Workers/Pipeline/ runs all workers and requests together, and workers
--                           that die
--   Api/                    api: authentication, the error mapping, the two middlewares, the response
--                           models and the handlers of /v1
--   Platform/               PostgreSQL tables and the Redis server, as records of operations and
--                           laws; every file above takes them as instance arguments
--   Prelude/                shared names, lists, results, text
--   Examples/               instances of the two interfaces, and the theorems at inputs
--
-- A coroutine is a function from a world to a result and a world: `Exec` of World.antt, with do
-- blocks. The world holds the committed tables, those of the open session, the stream, the retry
-- set, the clock and what has left the process. `async with uow` is `with_uow`. A UUID is a
-- number, an id that the table has not used. Times are microseconds. A Python function keeps its
-- name; a part of one has a name of its own. Functions that recurse do so on lists; the
-- sender's on the redirects that are left, from 3, which is the range of its loop; and `digits` of
-- Prelude/Text.antt on fuel, where a number is fuel enough for its digits.
--
-- A listing orders the rows of a table, keeps those after the cursor and cuts the page, as the SQL
-- does; the client that follows the cursors is `walk`, on fuel, and its theorem gives it one page
-- for each row and one more. The index of a percentile and a success rate are fractions of numbers
-- where the source has floats.
--
-- Parameters: HMAC-SHA256, SHA-256, `str.encode`, `json.dumps`, `random.uniform`, `secrets`,
-- `urllib.parse`, the resolver, the HTTP client, and whether PUBLISH raises; `datetime.isoformat`,
-- the text of a UUID, UTF-8 and their inverses, with laws; `uuid5` and `pydantic.HttpUrl`. base64
-- and `int` on bytes are written out in Prelude/, and the tables of `ipaddress` in
-- Infra/Addresses.antt, as they are from Python 3.12.8 on. Commands of PostgreSQL and of the Redis
-- stream and retry set do not fail here; what others commit during an ingest is a parameter of it,
-- and otherwise a use case runs
-- alone: a step of Workers/Pipeline/Steps.antt is a whole one, or what has run of it when its
-- worker died. A scheduler that dies with popped retries in hand, and a replay that dies after its
-- commit, are no steps there: what they held is lost, in the source too.
--
-- Not modelled: the live feed of the sandbox (`_event_stream`, `_with_heartbeat` and
-- `subscribe_attempt_events`), which is asyncio tasks and Redis Pub/Sub; the mock receivers, the
-- health and metrics endpoints and the wiring of the application (api/mock, api/health.py,
-- api/metrics.py, api/app.py), which give fixed answers; the
-- loops around one step of a worker; logging, migrations, scripts, the board tool and the web
-- console.
pub mod Prelude
pub mod Settings
pub mod Domain
pub mod Platform
pub mod Infra
pub mod World
pub mod Repositories
pub mod Services
pub mod Workers
pub mod Api
pub mod Examples
