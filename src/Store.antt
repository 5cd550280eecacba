-- ===== src/Store.antt =====
-- bot/infrastructure/services/notification_redis_store.py: holds, FIFO queues and flush locks in
-- Redis. The children hold the Lua scripts, what a user's mailbox shows of the database, the proofs
-- that the scripts implement the operations of a mailbox, the WATCH loops that stand in for the
-- scripts, the methods, and the histories of calls.
pub mod Scripts
pub mod Mailbox
pub mod Refines
pub mod Transaction
pub mod Fallback
pub mod Methods
pub mod History
pub mod Due
