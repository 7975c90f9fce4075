-- ===== src/Db.antt =====
-- internal/db: the node's SQLite database, as the rows of its tables.
-- A statement is what its SQL says it does to the rows. Whether SQLite can carry it out at all (a
-- full disk, a lock that is not given up) is the environment's: an operation takes the outcome
-- `fails`, and the clock's `now` in Unix seconds.
pub mod Tasks
pub mod Transfers
pub mod Migrate
