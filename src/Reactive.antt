-- ===== src/Reactive.antt =====
-- reactive: values that follow the active config, field by field.
pub mod Values
pub mod Controller
pub mod Typed
pub mod Bind
