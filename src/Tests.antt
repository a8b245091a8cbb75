-- ===== src/Tests.antt =====
-- Runs of the model at concrete inputs, with the concrete surroundings that they share.
pub mod World
mod Parcels
mod Services
mod Requests
mod Driver
mod Hello
mod Exchanges
mod Manager
mod Deliveries
mod Greetings
mod Greeted
mod Programs
mod Proxies
mod Clients
mod Registering
mod Finding
mod Publication
mod Listing
