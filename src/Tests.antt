-- ===== src/Tests.antt =====
-- Runs of the modelled code on concrete inputs, and the theorems at such inputs.
mod Codec
mod Logs
mod Requests
mod Transactions
mod Filters
mod Chain
mod Polls
mod Calls
mod Errors
