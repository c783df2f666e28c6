-- ===== src/Lua.antt =====
-- src/lws_lib.c: what the Lua chunks call.
pub mod Args
pub mod Unescape
