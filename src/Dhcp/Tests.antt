-- ===== src/Dhcp/Tests.antt =====
-- A subnet with one client on it, 192.168.7.1, and what the server answers.
use roman_firmware.Prelude.{
  ◌≡◌, refl, sym, subst, false, none, some, List, All, [], ◌∷◌, ◌++◌, true, arith, Bytes, get_or,
  replicate,
}
use roman_firmware.Dhcp.{
  Server, Message, Reply, no_lease, zero_mac, opt_find, discover, dhcp_server_process, fresh_server,
  reply,
}
use roman_firmware.Dhcp.Offer.{Requests, Answers, offer-Honoured}
use roman_firmware.Dhcp.Options.{Scan, opt_find-Scan}
use roman_firmware.Dhcp.Tenancy.{Datagram, serve}
use roman_firmware.Dhcp.Socket
use roman_firmware.Dhcp.Socket.{dhcp_server_init}
use roman_firmware.Dhcp.Session.{Received, Outcome, session, session-Broadcasts}

abbrev server : Server
server = record {
  ip = 192 ∷ 168 ∷ 7 ∷ 1 ∷ [];
  nm = 255 ∷ 255 ∷ 255 ∷ 0 ∷ [];
  set_router_and_dns = false;
  lease = replicate 8 (record { mac = zero_mac; expiry = 0 });
}

init_server : fresh_server server.ip server.nm false ≡ server
unfolding fresh_server
init_server = refl

abbrev client : Bytes
client = 2 ∷ 2 ∷ 132 ∷ 106 ∷ 150 ∷ 0 ∷ []

-- DHCPREQUEST for 192.168.7.18
abbrev request : Message
request = record { chaddr = client; opt = 53 ∷ 1 ∷ 3 ∷ 50 ∷ 4 ∷ 192 ∷ 168 ∷ 7 ∷ 18 ∷ 255 ∷ [] }

opt_find_requested : opt_find request.opt 50 ≡ some 3
unfolding opt_find
opt_find_requested = refl

process_granted :
    (get_or (dhcp_server_process (λ i. 70000) 300 300 request server).1.lease 2 no_lease).mac
    ≡ client
unfolding dhcp_server_process
process_granted = refl

-- DHCPDISCOVER, and what is offered on the empty table: 192.168.7.16.
abbrev wanted : Message
wanted = record { chaddr = client; opt = 53 ∷ 1 ∷ 1 ∷ 255 ∷ [] }

abbrev accepted : Message
accepted = record { chaddr = client; opt = 53 ∷ 1 ∷ 3 ∷ 50 ∷ 4 ∷ 192 ∷ 168 ∷ 7 ∷ 16 ∷ 255 ∷ [] }

offered :
    (r : Reply) × ((dhcp_server_process (λ i. 70000) 300 300 wanted server).0 ≡ some r)
    × (get_or r.options 2 0 ≡ 2)
    × (r.yiaddr ≡ 192 ∷ 168 ∷ 7 ∷ 16 ∷ [])
unfolding dhcp_server_process reply
offered = (_, refl, refl, refl)

accepted-Requests : Requests (192 ∷ 168 ∷ 7 ∷ 16 ∷ []) accepted
unfolding opt_find
accepted-Requests = (0, 3, refl, refl, refl, refl)

offer-Honoured_example :
    Answers 5 offered.0.yiaddr
      (dhcp_server_process
        (λ i. 90000)
        300
        300
        accepted
        (dhcp_server_process (λ i. 70000) 300 300 wanted server).1).0
offer-Honoured_example =
    offer-Honoured (λ i. 70000) (λ i. 90000) 300 300 300 300 wanted accepted server offered.0 refl
      refl offered.1 offered.2 refl
      (subst (λ ip. Requests ip accepted) (sym offered.3) accepted-Requests) (omega arith)
      (omega arith)

-- The client, whose lease is the third, is offered it again.
offered_again :
    (discover
      (λ i. 80000)
      client
      0
      8
      (dhcp_server_process (λ i. 70000) 300 300 request server).1.lease).0
    ≡ 2
unfolding discover dhcp_server_process
offered_again = refl

opt_find-Scan_example : Scan request.opt 50 0 (opt_find request.opt 50)
opt_find-Scan_example = opt_find-Scan request.opt 50

-- Another client, which first searches for an address and then asks for the one that is taken.
abbrev intruder : Bytes
intruder = 2 ∷ 2 ∷ 132 ∷ 106 ∷ 150 ∷ 9 ∷ []

abbrev datagram : Bytes → Datagram
datagram opt = record {
  ticks = λ k. 100000;
  tot_len = 300;
  len = 300;
  message = record { chaddr = intruder; opt = opt };
}

abbrev intrusion : List Datagram
intrusion = datagram (53 ∷ 1 ∷ 1 ∷ 255 ∷ []) ∷ datagram request.opt ∷ []

abbrev served : Server
served = (dhcp_server_process (λ i. 70000) 300 300 request server).1

-- The search is answered with another address, the request not at all.
intrusion_replies : (serve intrusion served).0 ≡ some (reply served 2 0) ∷ none ∷ []
unfolding serve dhcp_server_process reply
intrusion_replies = refl

-- A DHCPREQUEST as it is laid out in the datagram: the first 236 bytes, the cookie, and the options.
abbrev request_bytes : Bytes
request_bytes =
    replicate 28 1
    ++ (client ++ (replicate 202 0 ++ (99 ∷ 130 ∷ 83 ∷ 99 ∷ request.opt ++ replicate 298 0)))

abbrev received : Received
received = record {
  ticks = λ k. 70000;
  tot_len = 300;
  len = 300;
  msg = request_bytes;
  allocated = true;
  delivered = true;
  nif = some 4;
}

-- The request is acknowledged: one broadcast, and both pbufs are freed.
acknowledged :
    (let (log, s) =
        session (received ∷ []) (dhcp_server_init (some 9) server.ip server.nm false).1 in
      (get_or s.server.lease 2 no_lease).mac)
    ≡ client
unfolding session Socket.receive dhcp_server_init dhcp_server_process fresh_server
acknowledged = refl

session-Broadcasts_example :
    (let s = (dhcp_server_init (some 9) server.ip server.nm false).1 in
      All (Outcome (fresh_server server.ip server.nm false) s.udp) (session (received ∷ []) s).0)
session-Broadcasts_example =
    session-Broadcasts (some 9) server.ip server.nm false (received ∷ []) refl refl
      ((omega arith), tt)
