-- ===== src/Lib.antt =====
-- Verification of the Roman firmware: a USB signing service with one-shot provisioning.
--
-- The program. The HTTP service (http_server.c) takes requests over a USB network; its handlers
-- call the keystore (keystore.c), which checks what POST /write sends, encodes it (record.c),
-- stores it encrypted (storage.c, over tweetnacl.c and the SDK's flash calls), and hands the
-- decrypted keys to POST /sign through a RAM cache. diag.c leaves progress markers for the boot
-- after a crash. The network is usb_network.c, between TinyUSB and lwIP, with the DHCP server of
-- dhcpserver/dhcpserver.c.
--
-- The files.
--   Prelude     the shared names; Prelude/Memory is memcpy into a buffer and reading from it.
--   CString     the functions of the C library that the code calls: strchr, strstr, snprintf, atoi.
--   Base64      record_b64_decode of record.c and base64_encode of http_server.c.
--   Record      the device id rule and the payload codec of record.c and record.h.
--   Diag        the markers of diag.c and diag.h in a watchdog scratch register.
--   Storage     storage.c and storage.h: Storage/Randomness is randombytes and the wait for the
--               TRNG, Storage.antt the reads, the writes and the erase; Storage/Layout the
--               staged record; Storage/Assumptions the behaviour that is assumed of the code
--               outside the repository.
--   Keystore    keystore.c and keystore.h: the policy layer and its cache; Keystore/Invariant and
--               Keystore/Updates are about what all of its operations keep, Keystore/Cases and
--               Keystore/ClearCases list their outcomes, and Keystore/Contract is the machine
--               that keystore.h promises, which Keystore/Refinement compares the code with.
--   Http        http_server.c and http_server.h. Http/Board is the state behind the handlers,
--               Http/Json the field lookup, Http/Response the answer on a connection, Http/Sign,
--               Http/Provisioning, Http/Snapshot and Http/Debug the handlers, Http/Routing their
--               choice, and Http/Connection the lwIP callbacks; Http/Locked follows the stored
--               record under any of them. The other files under Http are about these.
--   Usb         usb_network.c and usb_descriptors.c: Usb/Frames and Usb/Ownership are about the
--               slot for a received frame, Usb/Bringup about the set-up, Usb/Descriptors is the
--               device and its configurations.
--   Dhcp        dhcpserver/dhcpserver.c and dhcpserver.h: Dhcp.antt the lease table and its messages,
--               Dhcp/Socket the UDP socket and the bytes of a datagram; Dhcp/Cases lists the ways
--               through a message, Dhcp/Session runs the server on a sequence of datagrams.
--   Led         led.c and led.h: the patterns of the status LED.
--   Stack       stack.c and stack.h: the watermark of the stack in use.
--   Main        app_main of main.c: the boot, the main loop with usb_network_update, and the
--               shutdown; Main/Callbacks is what TinyUSB and lwIP call in a round.
--               Main/Lasting follows the stored record from power-on on.
--   Bench       a concrete board for the tests, on which the assumptions hold.
--
-- The state. `Store` is the flash sector, the random generator and the scratch register;
-- `Keystore` is a store and the cache; `Board` adds the LED, the stack counters and the request
-- counters to it, and `Server` the table of connections. A handler returns its answer with the
-- board, a callback the calls of lwIP and of the SDK that it makes, in order, with the server. A
-- function that changes state takes the state and returns it with its result. A C string is the
-- list of the bytes before its NUL, a `const char *` that may be NULL an Option; a result that is
-- a length with a buffer is the list of the bytes written.
--
-- Parameters. tweetnacl.c is a copy of TweetNaCl and stays a parameter (`Crypto`), as do
-- `flash_range_erase`, `flash_range_program` and `flash_safe_execute` (`Hardware`), the TRNG (for
-- each sample its busy flag in every round, the round of the deadline and its data words:
-- `Trng`), the boot ROM's random words, the board id and the timer (`Entropy`), and the timer of
-- the LED (`Timer`), and TinyUSB's descriptor macros (`Macros`). `Env` gathers them with what the
-- SDK and lwIP answer during one callback; the results of tcp_write, mem_malloc, pbuf_alloc and
-- netif.input are arguments of the callbacks.
--
-- Fuel. The section loops of `storage_read` and `storage_write` take as many rounds as there are
-- payload bytes and one more: each round handles at least one byte. The loop of `opt_find` gets
-- 155 rounds, each of which moves on by two bytes at least through 308. The wait for the TRNG
-- gets one round more than there are before the deadline. A number is printed with at most ten
-- digits, which a uint32_t does not exceed. The loop of `tud_output` runs over the answers of
-- TinyUSB.
--
-- Not modelled: printf, the NCM descriptors, which are not compiled, the naked `main`, and the
-- calls of the watchdog, the UART and mDNS, which have no state here.
pub mod Prelude
pub mod CString
pub mod Base64
pub mod Record
pub mod Diag
pub mod Storage
pub mod Keystore
pub mod Bench
pub mod Dhcp
pub mod Stack
pub mod Led
pub mod Http
pub mod Usb
pub mod Main
