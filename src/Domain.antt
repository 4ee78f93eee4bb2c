-- ===== src/Domain.antt =====
-- domain/enums.py and domain/ids.py. Each enum is a data type; members are compared by their place in
-- the class, and `*_value` is the member's `.value`.
pub mod TaskStatus
pub mod ComputeStatus
pub mod Observation
pub mod Project
pub mod Resource
