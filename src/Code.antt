-- ===== src/Code.antt =====
-- src/code: a transfer by codes that a person carries.
pub mod Payload
