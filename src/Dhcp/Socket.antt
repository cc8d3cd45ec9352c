-- ===== src/Dhcp/Socket.antt =====
-- The UDP socket of dhcpserver/dhcpserver.c, from the datagram to the one that is broadcast.
--
-- `dhcp_server_t` is the server's `Server` with its pcb; `none` is NULL. The structure `dhcp_msg` is
-- its memory: 548 bytes, into which the datagram was copied, and what lies behind them. The calls of
-- lwIP are listed as values, and what it answers are arguments.
use roman_firmware.Prelude.{
  ℕ, ◌+◌, ◌/◌, ◌%◌, ◌^◌, Bool, not, Option, none, some, List, [], ◌∷◌, ◌++◌, Bytes, length, take,
  drop, slice, write_at, ltb, if◌then◌else◌,
}
use roman_firmware.Dhcp.{Server, Message, Reply, fresh_server, dhcp_server_process}

-- The pbuf that was received, and the one that is sent.
pub data Pbuf : Type 0 where
  request response : Pbuf

pub data Call : Type 0 where
  udp_recv : ℕ → Call
  udp_bind : ℕ → ℕ → Call
  udp_remove : ℕ → Call
  udp_sendto_if : Option ℕ → Bytes → Bytes → ℕ → ℕ → Call
  udp_sendto : Option ℕ → Bytes → Bytes → ℕ → Call
  pbuf_free : Pbuf → Call

pub record Service : Type 0 where
  pub server : Server
  pub udp : Option ℕ

-- PORT_DHCP_SERVER, PORT_DHCP_CLIENT
abbrev pub port_dhcp_server : ℕ
port_dhcp_server = 67

abbrev pub port_dhcp_client : ℕ
port_dhcp_client = 68

-- `created` is what udp_new returns; the result is -ENOMEM where the pcb is `none`.
unfoldable pub dhcp_socket_new_dgram : Option ℕ → List Call × Option ℕ
dhcp_socket_new_dgram none = ([], none)
dhcp_socket_new_dgram (some pcb) = (udp_recv pcb ∷ [], some pcb)

unfoldable pub dhcp_socket_free : Option ℕ → List Call × Option ℕ
dhcp_socket_free none = ([], none)
dhcp_socket_free (some pcb) = (udp_remove pcb ∷ [], none)

unfoldable pub dhcp_socket_bind : ℕ → ℕ → List Call
dhcp_socket_bind pcb port = udp_bind pcb port ∷ []

-- The result of `dhcp_socket_sendto`: -ENOMEM, lwIP's error, or the length.
pub data Sent : Type 0 where
  no_memory : Sent
  refused : Sent
  sent : ℕ → Sent

unfoldable pub address : ℕ → Bytes
address ip = ip / 2 ^ 24 % 256 ∷ ip / 2 ^ 16 % 256 ∷ ip / 2 ^ 8 % 256 ∷ ip % 256 ∷ []

-- The send on the interface of the datagram, or on the one that routing finds.
unfoldable pub send : Option ℕ → Option ℕ → Bytes → Bytes → ℕ → Call
send udp none p dest port = udp_sendto udp p dest port
send udp (some nif) p dest port = udp_sendto_if udp p dest port nif

-- `allocated` is whether pbuf_alloc returns a buffer, `delivered` whether the send returns ERR_OK.
unfoldable pub dhcp_socket_sendto :
    Bool → Bool → Option ℕ → Option ℕ → Bytes → ℕ → ℕ → List Call × Sent
unfolding address send
dhcp_socket_sendto allocated delivered udp nif buf ip port =
    let len = if ltb 0xFFFF (length buf) then 0xFFFF else length buf in
    let p = take len buf in
    if not allocated then ([], no_memory) else (
      send udp nif p (address ip) port ∷ pbuf_free response ∷ [],
      if delivered then sent len else refused,
    )

-- What the code reads of the structure: `chaddr` and the options behind the cookie.
unfoldable pub message_of : Bytes → Message
message_of msg = record { chaddr = slice 28 16 msg; opt = drop 240 msg }

-- The structure with the reply's fields written into it, up to the end of the options.
unfoldable pub datagram_of : Bytes → Reply → Bytes
datagram_of msg r =
    take (240 + length r.options)
      (write_at 240 r.options (write_at 16 r.yiaddr (write_at 0 (r.op ∷ []) msg)))

-- The end of `dhcp_server_process`: the broadcast, whose result is ignored, and the pbuf is freed.
unfoldable pub answer : Bool → Bool → Option ℕ → Option ℕ → Bytes → Option Reply → List Call
unfolding dhcp_socket_sendto datagram_of
answer allocated delivered udp nif msg none = pbuf_free request ∷ []
answer allocated delivered udp nif msg (some r) =
    (dhcp_socket_sendto allocated delivered udp nif (datagram_of msg r) 0xFFFFFFFF
      port_dhcp_client).0
    ++ pbuf_free request ∷ []

-- The callback on a datagram of `tot_len` bytes, of which `len` were copied to `msg`.
unfoldable pub receive :
    (ℕ → ℕ) → ℕ → ℕ → Bytes → Bool → Bool → Option ℕ → Service → List Call × Service
unfolding message_of answer
receive ticks tot_len len msg allocated delivered nif s =
    let (r, server) = dhcp_server_process ticks tot_len len (message_of msg) s.server in
    (answer allocated delivered s.udp nif msg r, record s { server = server })

-- Without a pcb nothing is bound, and the caller is not told.
unfoldable pub dhcp_server_init : Option ℕ → Bytes → Bytes → Bool → List Call × Service
unfolding dhcp_socket_new_dgram dhcp_socket_bind
dhcp_server_init created ip nm set_router_and_dns =
    let server = fresh_server ip nm set_router_and_dns in
    let (calls, udp) = dhcp_socket_new_dgram created in
    (
      calls ++ (elim udp [ none ↦ [] | some pcb ↦ dhcp_socket_bind pcb port_dhcp_server ]),
      record { server = server; udp = udp },
    )

unfoldable pub dhcp_server_deinit : Service → List Call × Service
unfolding dhcp_socket_free
dhcp_server_deinit s = let (calls, udp) = dhcp_socket_free s.udp in (calls, record s { udp = udp })
