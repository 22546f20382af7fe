-- ===== src/Tests.antt =====
-- The theorems at concrete inputs.
mod Plans
mod Queues
mod Prices
mod Sources
mod Codecs
mod Stores
mod Ingests
mod Loops
mod Queries
mod Caches
mod Configs
mod Apis
mod Abis
mod Sqls
mod Ddls
mod Batches
