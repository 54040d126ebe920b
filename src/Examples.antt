-- ===== src/Examples.antt =====
-- The theorems at concrete inputs.
pub mod Data
mod Payments
mod Requests
mod Entities
mod Calculators
mod Crediting
mod Onboarding
mod Subscribing
mod Contracting
mod Listings
mod Recommending
mod Notifying
mod Administering
