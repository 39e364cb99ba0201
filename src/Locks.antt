-- ===== src/Locks.antt =====
-- Core/lock/RWLockObject.h and Core/lock/LockObject.h.
pub mod ReadWrite
pub mod Spin
