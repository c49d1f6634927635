-- ===== src/Memory.antt =====
-- The in-memory repositories of src/infrastructure/repositories, as `dict`s in insertion order.
pub mod Items
pub mod Orders
pub mod Customers
pub mod Vehicles
pub mod Admins
pub mod Processed
