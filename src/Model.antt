-- ===== src/Model.antt =====
-- pkg/model/structure.go and structure_capacity.go: the landscape model, its maps of resources, and
-- the events that its methods send to the sink.
pub mod Stores
pub mod State
pub mod Landscape
pub mod Access
pub mod Catalog
pub mod References
pub mod Findings
pub mod Capacities
pub mod Calls
pub mod Mirror
pub mod Wiring
pub mod Effects
pub mod Run
pub mod Apply
mod Tests
