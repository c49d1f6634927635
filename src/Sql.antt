-- ===== src/Sql.antt =====
-- The repositories over SQL of src/infrastructure/repositories. SQLAlchemy and the database are a
-- parameter: a table with a primary key.
pub mod Table
pub mod Orders
pub mod Customers
pub mod Vehicles
pub mod Admins
pub mod Processed
pub mod Schema
pub mod Migrations
