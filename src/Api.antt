-- ===== src/Api.antt =====
-- The C interface: src/plfft.cpp and include/plfft.h.
pub mod Types
pub mod Config
pub mod Plan
pub mod Reachable
mod Examples
