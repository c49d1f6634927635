-- ===== src/Domain/Order.antt =====
-- src/domain/service_order.py: the definitions, their specification, and the proofs.
pub mod Base
pub mod Spec
pub mod Methods
pub mod History
pub mod Safe
