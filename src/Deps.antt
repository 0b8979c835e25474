-- ===== src/Deps.antt =====
-- pkg/dependencies: the tools that a project needs, and their versions.
pub mod Versions
pub mod Table
pub mod Check
pub mod Fulfilled
