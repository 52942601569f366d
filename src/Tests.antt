-- ===== src/Tests.antt =====
-- Runs of the services on concrete data, and the theorems at inputs that meet their hypotheses.
mod Fixtures
mod Memory
mod Pool
mod Processor
mod Answers
mod Aggregator
mod Concurrent
mod Config
mod Api
mod Wire
mod Main
mod Pipeline
mod Intake
mod Orders
mod Grace
mod Listing
