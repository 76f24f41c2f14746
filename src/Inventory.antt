-- ===== src/Inventory.antt =====
-- internal/inventory: the machines that the driver knows, and which cluster node each one is.
pub mod Facts
pub mod Machines
pub mod Store
pub mod Assigned
mod Tests
