-- ===== src/Tests.antt =====
-- Runs of the modelled operations on small concrete inputs, and the theorems at such inputs.
mod Jobs
mod Workers
mod Requests
mod Datasets
mod Agent
mod Converter
mod Registry
mod Pipeline
