-- ===== src/Examples.antt =====
-- Tests of the definitions, and the properties applied at concrete inputs.
mod Toy
mod World
mod Wallets
mod Ingests
mod Rounds
mod Seals
mod Witnesses
mod More
mod Headers
mod Keys
mod Prices
