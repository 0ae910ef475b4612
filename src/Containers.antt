-- ===== src/Containers.antt =====
-- The containers of the library, headers src/plfft_*.hpp.
pub mod HashMap
pub mod PodVector
mod Examples
