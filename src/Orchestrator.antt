-- ===== src/Orchestrator.antt =====
-- internal/orchestrator: the deploy engine. One child for each part of the package; each proves in
-- its own children what holds of it.
pub mod State
pub mod Record
pub mod Code
pub mod Step
pub mod Gate
pub mod View
pub mod Sel
pub mod Gates
pub mod Nodes
pub mod Manager
pub mod Ledger
pub mod Steps
pub mod Ready
pub mod Reports
pub mod Launch
pub mod Drive
pub mod Inspects
pub mod Policy
pub mod Events
mod Tests
