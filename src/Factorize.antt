-- ===== src/Factorize.antt =====
-- Factorisations of transform lengths: src/factorize.hpp and src/rader_generator.cpp. Lengths are
-- natural numbers here: the callers pass positive ones.
pub mod SmallestPrime
pub mod Factors
mod Examples
