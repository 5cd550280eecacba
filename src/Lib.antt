-- ===== src/Lib.antt =====
-- The wallet bot keeps blockchain events for its users in Redis until Telegram has taken them, and
-- holds users' wallets, secrets and cheques. This library models the parts of it that carry that
-- logic, and proves what they promise.
--
-- The parts, and how they interact:
--
-- * Notification is bot/core/models/blockchain_notification.py: the event, its idempotency key, and
--   the comparison of two events by their JSON texts. `text` and `data` of the source are the fields
--   `message` and `payload`.
-- * Redis is the server that the store talks to: a type of databases, the commands that are used,
--   and for each command what it replies and how it changes what can be read. Redis/Memory keeps
--   these laws in memory. A numeric string is a number, a lock token is the number that its
--   hexadecimal text writes, and a key is a constructor with its user. A key that expires is the
--   command `lapse`, which may happen at any time.
-- * Store is bot/infrastructure/services/notification_redis_store.py. Store/Scripts has the Lua
--   scripts, Store/Fallback the WATCH passes of the `_without_lua` methods, Store/Transaction their
--   retry loop, Store/Methods the methods, which run the script or the loop. Store/Mailbox is the
--   abstract view: what the keys of one user hold, and each operation on it as the docstrings promise
--   it. Store/Refines shows that the scripts implement it, Store/Fallback/Linear that a pass that
--   commits does what the script does, Store/Methods/Correct puts both together. Store/History lets
--   any clients call the scripts, `release` and the poll in any order, with the generation sequence in
--   Store/History/Sequence. Store/Due is `due_users`, the scan for the users that a
--   poll serves, with the repair of the schedule, by Lua and by WATCH; Redis/Indexed is a server that
--   lists the schedule.
-- * Worker is bot/infrastructure/workers/notification_delivery_worker.py: the set of running flushes,
--   `poll_once`, and the end of a flush.
-- * Coordinator is bot/infrastructure/services/notification_coordinator.py: `flush` and what it calls
--   in Coordinator, `accept`, `touch` and the end of a flow in Coordinator/Flow. At every await of a
--   flush other clients may act: a pass of its loop is a record `Turn` of what they do, of what the
--   lease event, the clock and the sender show, and a `Course` adds to the passes what they do before
--   the first read of the hold and before the final release of the lock.
-- * NotificationHistory is bot/infrastructure/services/notification_history_service.py, with the
--   clock, the fresh ids and Python's float as arguments.
-- * Wallets has the Wallet of bot/core/domain/entities.py, the interfaces of
--   bot/core/interfaces that are used, and the use cases add_wallet.py, get_secrets.py and
--   change_password.py of bot/core/use_cases/wallet. Wallets/Table is
--   bot/infrastructure/persistence/sqlalchemy_wallet_repository.py on a table of rows, whose
--   theorems fill the laws of the interface. Wallets/Balances is get_balance.py.
-- * Encryption is bot/infrastructure/services/encryption_service.py on a record `Crypto` of the
--   ciphers; Encryption/Service fills the interface that the use cases take.
-- * SealedBox is bot/infrastructure/services/stellar_sealedbox_service.py on a record `Boxes` of the
--   box primitives.
-- * Subscriptions is `sync_subscriptions` of bot/infrastructure/services/notification_service.py on a
--   record `Notifier` of the HTTP calls.
-- * Events is `process_notification` and `_send_notification_to_user` of the same file, with the
--   operation of bot/core/models/notification.py: the wallets a payload concerns, the filters, the
--   makers of trades, and the event that is handed to the coordinator. Events/Delivery is
--   `send_notification`, with what a delivery changes in the history and in the wallets.
-- * Cheques is bot/infrastructure/persistence/sqlalchemy_cheque_repository.py on two tables, with
--   the use cases claim_cheque.py and cancel_cheque.py of bot/core/use_cases/cheque.
-- * Throttle is ThrottleManager.throttle of bot/middleware/throttling.py, on the hashes of Redis.
-- * Payments has send_payment.py of bot/core/use_cases/payment, swap_assets.py and manage_offer.py of
--   bot/core/use_cases/trade, and create_cheque.py of bot/core/use_cases/cheque: their checks, in front
--   of a Stellar service that is an argument.
-- * Tests applies the theorems to concrete inputs.
--
-- Bounds and fuel. The passes of a flush are a list: its end is where the ownership budget of
-- `_flush_with_owned_lock` cuts the loop off, and a list one longer than the queue is enough for a
-- flush that nothing stops. The rounds of a WATCH loop are the list of those in which others interfere;
-- the pass after it commits. `due_users` reads ten pages, as the source does. The batches of
-- `sync_subscriptions` have one round for each key, and a batch takes at least one. `str` has the
-- number itself as fuel, plus one. Python integers that the code keeps non-negative are natural
-- numbers.
--
-- The ownership budget ends a flush before a look at the queue or during a send, and not at its other
-- awaits. The payload of an event is a list in the order of its keys, with no negative integers.
--
-- Not modelled: the heartbeat task, which shows only as the lease event; the worker's loop around its
-- polls; errors of Redis other than an unknown EVAL; logging; the insertion of a cheque's row; the
-- ciphers, the box primitives, jsonpickle, Horizon, the notifier's HTTP calls and the Stellar service,
-- which are arguments; the mapping of a payload to an operation, the texts of messages and the
-- handling of the HTTP request, which stand in front of Events; the repositories of users, address
-- book, messages and filters; routers, middleware, the web app and the calls of outside services.
pub mod Prelude
pub mod Notification
pub mod Redis
pub mod Store
pub mod Coordinator
pub mod NotificationHistory
pub mod Wallets
pub mod Cheques
pub mod Encryption
pub mod Events
pub mod Payments
pub mod SealedBox
pub mod Subscriptions
pub mod Tests
pub mod Throttle
pub mod Worker
