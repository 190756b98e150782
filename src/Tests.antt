-- ===== src/Tests.antt =====
-- Concrete inputs of the theorems, by the part of the program.
mod Calendar
mod Series
mod Scans
mod Auth
mod Provider
mod Services
mod Jobs
mod Market
mod Imports
