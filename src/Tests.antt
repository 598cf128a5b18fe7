-- ===== src/Tests.antt =====
-- The theorems at concrete inputs, one module for each part of the program.
mod Tokens
mod Workers
mod Pools
mod Documents
mod Rig
mod Races
mod Cancels
mod Futures
mod Combinators
mod Waiting
mod Coroutines
