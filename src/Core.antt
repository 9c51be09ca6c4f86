-- ===== src/Core.antt =====
-- apis/core/v1: values of any kind as messages.
pub mod Values
