-- ===== src/Messages.antt =====
-- The messages of the protocol: what they hold, and their `size`, `encode`, `chop` and `decode`
-- methods, a module each. `encode` appends to its argument and panics where `size` is wrong.
pub mod SigReq
pub mod SigRes
pub mod Announce
pub mod Lookup
pub mod NotifyInfo
pub mod Notify
pub mod Broken
pub mod Traffic
pub mod Tests
