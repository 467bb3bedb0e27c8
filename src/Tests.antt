-- ===== src/Tests.antt =====
-- The theorems at concrete inputs.
mod Canvas
mod Store
mod Plans
mod Queues
mod Events
mod Writebacks
mod Turns
mod Imports
mod Ingestions
mod Models
