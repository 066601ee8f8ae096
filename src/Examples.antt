-- ===== src/Examples.antt =====
-- Runs of the theorems at concrete inputs.
mod Toys
mod Clock
mod Storage
mod Fetch
mod Requests
mod Radios
mod AdcsDriver
mod Responses
mod Commands
mod Disk
mod Adcs
