-- ===== src/Tests.antt =====
-- The theorems at concrete inputs, and runs of the definitions.
mod Data
mod Clusters
mod Comparisons
mod Reapers
mod Scrapes
mod Services
mod Servers
mod Translations
mod Loads
mod Requests
mod Resting
mod Environments
mod Rounds
mod Objects
