-- ===== src/Examples.antt =====
-- Concrete runs of the code, and each theorem applied to a concrete input.
mod Trees
mod Rules
mod Regions
mod Spaces
mod Calls
mod Clocks
mod Objects
mod Futexes
