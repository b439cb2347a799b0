-- ===== src/Examples.antt =====
-- Concrete inputs for the handlers of coordinator/*.py, and what the theorems say of them.
mod Ids
mod Inputs
mod Runs
mod Handlers
mod Coordinators
mod Workers
mod Streams
mod Pages
mod Sessions
mod Tasks
mod Harnessed
