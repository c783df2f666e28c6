-- ===== src/Interface.antt =====
-- src/lws_interface.c: the callbacks that libcurl makes while a request runs, the calls of libcurl, and
-- what the program makes of the answers of the Lambda runtime API.
pub mod Header
pub mod Stream
pub mod Cookies
pub mod Payload
pub mod Invocation
pub mod Perform
pub mod Post
