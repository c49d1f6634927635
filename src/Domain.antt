-- ===== src/Domain.antt =====
-- src/domain: the entities and the validation rules.
pub mod Event
pub mod Order
pub mod Party
pub mod Validation
