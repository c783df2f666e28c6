-- ===== src/Codec.antt =====
-- src/lws_codec.c: Base64 in place, and the validation of UTF-8.
pub mod Base64
pub mod Utf8
