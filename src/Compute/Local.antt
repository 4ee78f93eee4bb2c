-- ===== src/Compute/Local.antt =====
-- compute/local/provider.py: `LocalProvider`.
pub mod Offers
pub mod Submission
pub mod Poll
pub mod Collect
pub mod Prepare
