-- ===== src/Tests.antt =====
-- Runs of the definitions at concrete inputs, the inputs of test/test_codec.c among them, and the
-- theorems at inputs that meet their hypotheses.
mod Codec
mod Http
mod Interface
mod Body
mod Request
mod Prepare
mod Lua
mod Table
mod State
mod Runtime
mod Header
mod Payload
mod Perform
mod Start
mod Args
