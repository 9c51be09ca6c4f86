-- ===== src/Util.antt =====
-- util: messages, field masks, differences and merges.
pub mod Messages
pub mod FieldMask
pub mod Merge
