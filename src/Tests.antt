-- ===== src/Tests.antt =====
-- Runs of the modelled code on concrete inputs.
mod Url
mod Lengths
mod Listings
mod Copies
mod Keys
mod Finding
mod Rules
mod Pipes
mod Workers
mod Usage
mod Stores
mod Sessions
mod Objects
mod Locks
mod Removals
mod Removed
