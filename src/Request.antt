-- ===== src/Request.antt =====
-- src/lws_request.c: what is done with a request before and after its Lua chunk.
pub mod Handle
pub mod ErrorResponse
pub mod Prepare
pub mod Substitute
