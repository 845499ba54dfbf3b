-- ===== src/Crud.antt =====
-- The `dcrud` package (C/src/dcrud).
pub mod ClassId
pub mod Guid
pub mod Shareable
pub mod Protocol
pub mod Outbox
pub mod Cache
pub mod Arguments
pub mod Receiver
