-- ===== src/Rma.antt =====
-- src/rma: remote keys and their wire format (Key), the guard of a fetching atomic operation
-- (Fetch), the safe operations of endpoints (Ops) and the older free functions (Atomic).
pub mod Key
pub mod Fetch
pub mod Ops
pub mod Atomic
