-- ===== src/Platform.antt =====
-- What the code runs on and does not implement: PostgreSQL under SQLAlchemy (`Storage`) and Redis
-- (`Redis`), as records of operations with the documented behaviour that the code relies on, and
-- the state and exception monad of the coroutines (`Exec`).
pub mod Storage
pub mod Redis
