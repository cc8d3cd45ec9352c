-- ===== src/Main/Callbacks.antt =====
-- What TinyUSB and lwIP call while they run, and what holds of the whole machine under any such calls.
use roman_firmware.Prelude.{
  ℕ, ◌≡◌, ◌∙◌, Bool, true, Option, Bytes, Bool-cases, Option-cases, inl, inr,
}
use roman_firmware.Base64.{is_empty}
use roman_firmware.Storage.{Crypto}
use roman_firmware.Storage.Assumptions.{CryptoLaws}
use roman_firmware.Dhcp
use roman_firmware.Dhcp.Socket.{receive}
use roman_firmware.Dhcp.Session.{Received, IsLike, receive-IsLike}
use roman_firmware.Usb.{Network, tud_network_init_cb, tud_network_recv_cb, service_traffic}
use roman_firmware.Http.Connection.{Server}
use roman_firmware.Http.Table.{Reach, Reach-IsWellFormed}
use roman_firmware.Http.Callbacks.{IsWellFormed}
use roman_firmware.Main.{Machine}

-- From machine `m`: callbacks of the HTTP service, on a board whose cryptography is `c`, datagrams for
-- the DHCP server, and frames and restarts of the link, in any order.
pub data Makes (c : Crypto) (m : Machine) : Machine → Type 0 where
  quiet : Makes c m m
  served :
      {n : Machine} {s : Server}
      → Makes c m n
      → Reach c n.server s
      → Makes c m (record n { server = s })
  datagram :
      {n : Machine} (g : Received)
      → Makes c m n
      → Makes c m (record n {
        dhcp_server =
            (receive g.ticks g.tot_len g.len g.msg g.allocated g.delivered g.nif n.dhcp_server).1;
      })
  frame :
      {n : Machine} (allocated : Bool) (src : Bytes)
      → Makes c m n
      → Makes c m (record n { network = (tud_network_recv_cb allocated src n.network).1 })
  restart :
      {n : Machine}
      → Makes c m n
      → Makes c m (record n { network = (tud_network_init_cb n.network).1 })

-- A machine whose services are as `d` and `udp` were set up, with the interface added.
pub record IsRunning (c : Crypto) (d : Dhcp.Server) (udp : Option ℕ) (m : Machine) : Type 0 where
  pub server : IsWellFormed c m.server
  pub dhcp : IsLike d m.dhcp_server.server
  pub socket : m.dhcp_server.udp ≡ udp
  pub link : m.network.netif_added ≡ true

recv-link :
    (allocated : Bool) (src : Bytes) (n : Network)
    → (tud_network_recv_cb allocated src n).1.netif_added ≡ n.netif_added
unfolding tud_network_recv_cb
recv-link allocated src n = elim (Option-cases n.received_frame) [
  | inr (p, busy) ↦ simp (busy, tud_network_recv_cb)
  | inl free ↦ elim (Bool-cases (is_empty src)) [
    | inl nothing ↦ simp (free, nothing, tud_network_recv_cb)
    | inr some_ ↦ elim (Bool-cases allocated) [
      | inl buffer ↦ simp (free, some_, buffer, tud_network_recv_cb)
      | inr none_left ↦ simp (free, some_, none_left, tud_network_recv_cb)
    ]
  ]
]

init-link : (n : Network) → (tud_network_init_cb n).1.netif_added ≡ n.netif_added
unfolding tud_network_init_cb
init-link n = elim (Option-cases n.received_frame) [
  | inl free ↦ simp (free, tud_network_init_cb)
  | inr (p, busy) ↦ simp (busy, tud_network_init_cb)
]

pub service-link :
    (taken : Bool) (n : Network) → (service_traffic taken n).1.netif_added ≡ n.netif_added
unfolding service_traffic
service-link taken n = elim (Option-cases n.received_frame) [
  | inl free ↦ simp (free, service_traffic)
  | inr (p, busy) ↦ simp (busy, service_traffic)
]

module _ (c : Crypto) (d : Dhcp.Server) (udp : Option ℕ) where
  -- A change of the network that leaves the interface added.
  pub network-IsRunning :
      (m : Machine) (n : Network)
      → IsRunning c d udp m
      → n.netif_added ≡ m.network.netif_added
      → IsRunning c d udp (record m { network = n })
  network-IsRunning m n w same = record {
    server = w.server;
    dhcp = w.dhcp;
    socket = w.socket;
    link = same ∙ w.link;
  }

  pub server-IsRunning :
      (m : Machine) (s : Server) (stack_tick : ℕ)
      → IsRunning c d udp m
      → IsWellFormed c s
      → IsRunning c d udp (record m { server = s; stack_tick = stack_tick })
  server-IsRunning m s stack_tick w w' = record {
    server = w';
    dhcp = w.dhcp;
    socket = w.socket;
    link = w.link;
  }

  pub Makes-IsRunning :
      {m n : Machine} → CryptoLaws c → Makes c m n → IsRunning c d udp m → IsRunning c d udp n
  unfolding receive
  Makes-IsRunning laws quiet w = w
  Makes-IsRunning laws (served {n = n} {s = s} rest reach) w =
      let w' = Makes-IsRunning laws rest w in
      server-IsRunning n s n.stack_tick w' (Reach-IsWellFormed c n.server s laws w'.server reach)
  Makes-IsRunning laws (datagram {n = n} g rest) w =
      let w' = Makes-IsRunning laws rest w in
      record {
        server = w'.server;
        dhcp = receive-IsLike d g n.dhcp_server w'.dhcp;
        socket = w'.socket;
        link = w'.link;
      }
  Makes-IsRunning laws (frame {n = n} allocated src rest) w =
      network-IsRunning n _ (Makes-IsRunning laws rest w) (recv-link allocated src n.network)
  Makes-IsRunning laws (restart {n = n} rest) w =
      network-IsRunning n _ (Makes-IsRunning laws rest w) (init-link n.network)
