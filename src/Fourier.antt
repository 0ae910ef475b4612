-- ===== src/Fourier.antt =====
-- The discrete Fourier transform that kernels and plans compute, over exact coefficients: what the
-- execution of the plans of src/planner/strategies is measured against.
pub mod Sum
pub mod Dft
pub mod Five
