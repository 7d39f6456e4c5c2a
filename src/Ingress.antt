-- ===== src/Ingress.antt =====
-- pkg/ingress: documents of resources, decoded from YAML, JSON and CSV and applied to the model.
pub mod Values
pub mod Lists
pub mod Resources
pub mod Making
pub mod Landscape
pub mod Access
pub mod Catalog
pub mod Capacity
pub mod Documents
pub mod PrimaryId
pub mod Adds
pub mod Applied
pub mod Decode
pub mod SpecPath
pub mod Csv
pub mod Format
pub mod Ready
pub mod Parsed
pub mod Paths
mod Tests
