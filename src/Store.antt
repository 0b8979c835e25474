-- ===== src/Store.antt =====
-- pkg/finding/finding.go: the descriptions of findings, and the files that keep them.
pub mod Files
pub mod Describe
pub mod Details
pub mod Save
pub mod Local
pub mod CopyInput
pub mod RoundTrip
pub mod Newest
