-- ===== src/Examples.antt =====
-- Concrete instances of what the models take as parameters, and the theorems at concrete inputs.
pub mod Memory
pub mod Toy
pub mod Disk
mod Addresses
mod Proxy
mod Retrievals
mod Identities
mod Browsers
mod Starts
mod Hellos
mod Systems
mod Views
pub mod Uploads
mod Five
mod ClientTests
mod Pages
mod Mains
