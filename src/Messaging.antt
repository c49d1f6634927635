-- ===== src/Messaging.antt =====
-- src/infrastructure/messaging: the event contract, the publishers, the consumer and the worker.
pub mod Contracts
pub mod Memory
pub mod Rabbit
pub mod Worker
pub mod Process
