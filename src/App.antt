-- ===== src/App.antt =====
-- src/application: the ports and the use cases.
pub mod Ports
pub mod PartyPorts
pub mod Reads
pub mod Saga
pub mod Customers
pub mod Vehicles
pub mod Opening
pub mod System
pub mod Admins
pub mod EventHandler
