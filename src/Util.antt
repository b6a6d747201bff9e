-- ===== src/Util.antt =====
-- pkg/util
pub mod Params
pub mod Names
