-- ===== src/Tests.antt =====
-- Runs of the model at concrete inputs.
mod Machine
mod Fixtures
mod Capturing
mod Serving
mod Networks
mod Rounds
mod Posting
mod Ordering
mod Session
