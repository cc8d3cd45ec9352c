-- ===== src/Http.antt =====
-- The HTTP service, http_server.c and http_server.h, built with DEBUG_AVAILABLE 1.
--
--   Board        what the handlers share: the keystore, the LED, the stack counters, the request
--                counters, and what the SDK answers during a callback.
--   Json         json_get_string; Json/Field is about it
--   Response     http_send_response, on one connection
--   Sign, Provisioning, Snapshot, Debug   the handlers
--   Routing      http_process_request; Routing/Cases follows its choice of a handler
--   Connection   the lwIP callbacks and the table of connections
--   Lifetime     http_server_init and http_server_deinit
--   Keeps, Requests, Callbacks, Table     what every request and every callback keeps
--   Signing, Wiped                        POST /sign
--   Installing                            POST /write
--   Unchanged, Flash                      which requests change flash
--   Segments, Slots, Shutdown             connections that are received, accepted and closed
--   Fits, Answered                        what is answered, and that it fits in the buffer
--   Routes                                the request line and the list of routes
--   Tests, Provisions                     concrete requests, on the board of Bench
pub mod Board
pub mod Json
pub mod Response
pub mod Sign
pub mod Provisioning
pub mod Snapshot
pub mod Debug
pub mod Routing
pub mod Connection
pub mod Lifetime
pub mod Shutdown
pub mod Keeps
pub mod Requests
pub mod Signing
pub mod Served
pub mod Wiped
pub mod Installing
pub mod Unchanged
pub mod Flash
pub mod Callbacks
pub mod Table
pub mod Asking
pub mod Locked
pub mod Segments
pub mod Slots
pub mod Routes
pub mod Fits
pub mod Answered
pub mod Tests
pub mod Provisions
