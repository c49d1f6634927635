-- ===== src/Http.antt =====
-- src/presentation: the dependencies that authenticate a request, and the routes.
pub mod Auth
pub mod Customers
pub mod Vehicles
pub mod Admin
pub mod Events
pub mod Logging
pub mod Reply
pub mod ServiceOrders
pub mod App
