-- ===== src/Runtime.antt =====
-- src/lws_runtime.c: the configuration from the environment, and the loop over the requests.
pub mod Cleanup
pub mod Env
pub mod Loop
pub mod Start
