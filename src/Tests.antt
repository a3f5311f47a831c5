-- ===== src/Tests.antt =====
-- Runs of the model on concrete inputs, and its theorems at such inputs.
mod Sample
pub mod Runs
pub mod Accesses
pub mod Trees
pub mod Lifetimes
pub mod Startups
pub mod Sessions
pub mod Starters
pub mod Listings
pub mod Parts
pub mod Parallels
