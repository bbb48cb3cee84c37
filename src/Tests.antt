-- ===== src/Tests.antt =====
-- Each theorem with a hypothesis, applied to a small concrete state.
pub mod Stored
pub mod Rows
pub mod Solved
pub mod Files
pub mod Curves
pub mod Studied
pub mod Searched
pub mod Served
