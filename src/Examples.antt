-- ===== src/Examples.antt =====
-- The theorems at concrete inputs, with the millionths of Double/Fixed.antt for doubles.
mod Solver
mod Threads
mod Flight
mod Faults
mod Tests
mod Reactor
mod ReadBack
mod Script
mod Orders
mod Compared
