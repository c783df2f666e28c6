-- ===== src/Lib.antt =====
-- lambda-lws, a custom runtime for AWS Lambda that serves HTTP requests by Lua scripts.
--
-- The program's main loop (src/lws_runtime.c) asks the Lambda runtime API for the next invocation
-- (src/lws_interface.c, by libcurl), prepares the request (src/lws_request.c), runs Lua chunks on it
-- (src/lws_state.c, src/lws_lib.c), and posts the response or streams it. Headers and variables are
-- kept in hash tables (src/lws_table.c). A body that is not text is sent as base64 (src/lws_codec.c).
--
-- Which file models what:
--   Codec/Base64.antt   src/lws_codec.c: lws_base64_decode, lws_base64_encode, lws_base64_encode_len,
--                       which work in place in one buffer; Codec/Base64/Spec.antt is RFC 4648.
--   Codec/Utf8.antt     src/lws_codec.c: lws_valid_utf8; Codec/Utf8/Spec.antt is the encoding of
--                       Unicode scalar values.
--   Http.antt           src/lws_http.c: lws_http_status and lws_find_http_status.
--   Search.antt         the binary search loop that lws_find_http_status writes out.
--   Interface/Stream.antt  src/lws_interface.c: lws_handle_read, the read callback of a streaming
--                       response; Interface/Stream/Schedule.antt runs it with the writes between.
--   Interface/Header.antt  src/lws_interface.c: lws_handle_header, the header callback; the table of
--                       headers is seen as the map of Table/Refine.
--   Interface/Cookies.antt  src/lws_interface.c: lws_add_cookie and the cookies of lws_add_headers.
--   Interface/Invocation.antt  src/lws_interface.c: lws_get_next_invocation, with its payload in
--                       Interface/Payload.antt; the JSON document of yyjson is a parameter.
--   Table.antt          src/lws_table.c: the table, with Table/Size.antt (sizes), Table/Hash.antt
--                       (keys), Table/Find.antt (search), Table/Insert.antt (new slots) and
--                       Table/Methods.antt (the functions of src/lws_table.h); the queue of
--                       src/lws_ngx.h is the list of its elements. Table/Refine.antt is the map that
--                       a table implements.
--   Interface/Perform.antt  src/lws_interface.c: lws_curl_perform, lws_stream_response and
--                       lws_post_error; Interface/Post.antt is lws_post_response. What libcurl and
--                       yyjson answer is a parameter.
--   Body.antt           the growth of the body buffers (src/lws_request.c, src/lws_interface.c);
--                       Body/Response.antt: lws_write_response_body, lws_seek_response_body;
--                       Body/Response/Send.antt: the choice of base64 in lws_post_response;
--                       Body/Invocation.antt: lws_handle_write.
--   Request/Substitute.antt  src/lws_request.c: lws_string_sub.
--   Request/Prepare.antt  src/lws_request.c: lws_get_file_status, lws_prepare_request;
--                       Request/Prepare/Status.antt is the stat cache that is usable.
--   Request/Handle.antt   src/lws_request.c: lws_prepare_response, lws_finalize_response,
--                       lws_handle_request, which joins Request/Prepare and State.
--   Request/ErrorResponse.antt  src/lws_request.c: lws_error_response.
--   State.antt          src/lws_state.c: the functions of its header; State/Chunks.antt is lws_run and
--                       lws_call of src/lws_lib.c; State/Life.antt is their use in
--                       lws_handle_request of src/lws_request.c. What Lua and the chunks do is a
--                       parameter, and the stack and _ENV of Lua are left out.
--   Runtime/Env.antt    src/lws_runtime.c: the readers of environment variables.
--   Runtime/Start.antt  src/lws_runtime.c: main up to its loop.
--   Runtime/Loop.antt   src/lws_runtime.c: a round of the loop of main, by the answers of what it
--                       calls.
--   Runtime/Cleanup.antt  src/lws_runtime.c: the cleanup behind a round.
--   Lua/Unescape.antt   src/lws_lib.c: lws_unescape_url; Lua/Unescape/Encoding.antt is
--                       percent-encoding (RFC 3986), Lua/Unescape/Text.antt what a text stands for.
--   Lua/Args.antt       src/lws_lib.c: lws_parseargs; Lua/Args/Pairs.antt is the encoding of a form.
-- The modules below each of these hold its proofs; Tests runs the definitions at concrete inputs.
-- Prelude holds what the modules share.
--
-- Conventions. Numbers are naturals; a `size_t` has 64 bits, and where the source's arithmetic could
-- wrap the model takes it modulo 2 ^ 64. Memory behind a pointer is a list of bytes, and a run that
-- accesses memory outside of it is `none`; the theorems show where that does not happen. Return codes
-- are integers; the conversion of a lua_Integer to an int of 32 bits is written out (to_int). A loop with a counter is structural recursion on it. The binary search is recursion
-- on fuel, and one round more than the table has entries is enough, since every round that does not
-- return makes the interval smaller. The loop that raises a capacity has 128 rounds, since two of them
-- at least double it. lws_unescape_url has two rounds for each character, since a round that does not
-- move on follows one that does;
-- lws_parseargs has one for each character and one more. A search of the table has
-- as many rounds as slots. `lws_alloc` and `lws_realloc` are parameters with what the C library
-- documents of them as hypotheses. What libcurl answers to the calls of a transfer is a list, and a
-- run is `none` where the list ends before the source's loop does. The request counter of a Lua state does not wrap.
--
-- Not modelled: libcurl, yyjson, the Lua interpreter, the C library, and what is pure input and output
-- (src/lws_log.c, the Docker and build files). The end of main (src/lws_runtime.c), the headers but
-- cookies of lws_add_headers and lws_cancel_poll of src/lws_interface.c, and the rest of
-- src/lws_lib.c, which drives Lua, have no definitions here; the Content-Type of a response is a
-- parameter of its writes.
pub mod Prelude
pub mod Search
pub mod Codec
pub mod Http
pub mod Body
pub mod Table
pub mod Request
pub mod State
pub mod Runtime
pub mod Lua
pub mod Interface
mod Tests
