-- ===== src/Compute.antt =====
-- The compute package: the protocol models, the registry and the router, and the local provider.
pub mod Protocol
pub mod Codec
pub mod Registry
pub mod Effects
pub mod Router
pub mod Local
