-- ===== src/Dhcp/Session.antt =====
-- The DHCP server from `dhcp_server_init` on, through any sequence of datagrams.
use roman_firmware.Prelude.{
  ℕ, ◌+◌, ◌≤◌, ◌≡◌, refl, ap, subst, ◌∙◌, ◌⊎◌, inl, inr, Bool, Option, List, [], ◌∷◌, All, Bytes,
  length, length-set, length-replicate, Bool-cases, get_or, set, ◌==◌,
}
use roman_firmware.Dhcp.{
  Server, Message, Lease, fresh_server, discover, handle_discover, grant, is_mac, zero_mac,
  no_lease, max_ip, dhcp_server_process,
}
use roman_firmware.Dhcp.Cases.{process-each}
use roman_firmware.Dhcp.Choice.{discover-Chosen}
use roman_firmware.Dhcp.Socket
use roman_firmware.Dhcp.Socket.{Service, dhcp_server_init}
use roman_firmware.Dhcp.Readable.{OptionAt, Readable}
use roman_firmware.Dhcp.Sending.{IsAnswer, Broadcasts, receive-Broadcasts}

-- The server as `d` was set up, with a lease table of full length.
pub record IsLike (d d' : Server) : Type 0 where
  pub same_ip : d'.ip ≡ d.ip
  pub same_nm : d'.nm ≡ d.nm
  pub same_router : d'.set_router_and_dns ≡ d.set_router_and_dns
  pub slots : length d'.lease ≡ 8

module _ (d s : Server) (w : IsLike d s) where
  table-IsLike : (ls : List Lease) → length ls ≡ 8 → IsLike d (record s { lease = ls })
  table-IsLike ls size = record {
    same_ip = w.same_ip;
    same_nm = w.same_nm;
    same_router = w.same_router;
    slots = size;
  }

  discover-IsLike : (ticks : ℕ → ℕ) (m : Message) → IsLike d (handle_discover ticks m s).1
  unfolding handle_discover
  discover-IsLike ticks m =
      let (y, ls) = discover ticks m.chaddr 0 max_ip s.lease in
      let next = table-IsLike ls ((discover-Chosen ticks m.chaddr s.lease 0 max_ip).0 ∙ w.slots) in
      elim (Bool-cases (y == max_ip)) [
        | inl full ↦ rw (full, handle_discover) next
        | inr found ↦ rw (found, handle_discover) next
      ]

  grant-IsLike : (ticks : ℕ) (m : Message) (yi : ℕ) → IsLike d (grant ticks m yi s).1
  unfolding grant
  grant-IsLike ticks m yi =
      let l = get_or s.lease yi no_lease in
      let next : (new : Lease) → IsLike d (record s { lease = set s.lease yi new }) =
        λ new. table-IsLike (set s.lease yi new) (length-set s.lease yi new ∙ w.slots) in
      elim (Bool-cases (is_mac l m.chaddr)) [
        | inl mine ↦ rw (mine, grant) (next _)
        | inr other ↦ elim (Bool-cases (is_mac l zero_mac)) [
          | inl free ↦ rw (other, free, grant) (next _)
          | inr taken ↦ rw (other, taken, grant) w
        ]
      ]

  process-IsLike :
      (ticks : ℕ → ℕ) (tot_len len : ℕ) (m : Message)
      → IsLike d (dhcp_server_process ticks tot_len len m s).1
  process-IsLike ticks tot_len len m =
      process-each (λ out. IsLike d out.1) ticks m s w (discover-IsLike ticks m)
        (λ yi bound. grant-IsLike (ticks 0) m yi) tot_len len

  -- What answers for the server as it is answers for the server as it was set up.
  like-Readable : {kind : ℕ} {opt : Bytes} → Readable s kind opt → Readable d kind opt
  like-Readable {opt = opt} r = record {
    msg_type = r.msg_type;
    server_id = subst (OptionAt opt 54) w.same_ip r.server_id;
    subnet_mask = subst (OptionAt opt 1) w.same_nm r.subnet_mask;
    lease_time = r.lease_time;
    router = λ on.
        let (router, dns) = r.router (w.same_router ∙ on) in
        (subst (OptionAt opt 3) w.same_ip router, subst (OptionAt opt 6) w.same_ip dns);
  }

  like-IsAnswer : {msg bytes : Bytes} → IsAnswer s msg bytes → IsAnswer d msg bytes
  like-IsAnswer a = record {
    kind = a.kind;
    offered = a.offered;
    size = a.size;
    op = a.op;
    xid = a.xid;
    flags = a.flags;
    yiaddr = a.yiaddr ∙ ap (λ ip. set ip 3 (16 + a.offered)) w.same_ip;
    inside = a.inside;
    chaddr = a.chaddr;
    cookie = a.cookie;
    kinds = a.kinds;
    options = like-Readable a.options;
  }

-- A datagram with the memory of the structure it is copied to, the clock, and what lwIP answers.
pub record Received : Type 0 where
  pub ticks : ℕ → ℕ
  pub tot_len : ℕ
  pub len : ℕ
  pub msg : Bytes
  pub allocated : Bool
  pub delivered : Bool
  pub nif : Option ℕ

pub receive-IsLike :
    (d : Server) (g : Received) (s : Service)
    → IsLike d s.server
    → IsLike d
        (Socket.receive g.ticks g.tot_len g.len g.msg g.allocated g.delivered g.nif s).1.server
unfolding Socket.receive
receive-IsLike d g s w =
    process-IsLike d s.server w g.ticks g.tot_len g.len (Socket.message_of g.msg)

-- The datagrams one after the other, each with the calls that it leads to.
unfoldable pub session : List Received → Service → List (Received × List Socket.Call) × Service
session [] s = ([], s)
session (g ∷ gs) s =
    let (calls, s') =
      Socket.receive g.ticks g.tot_len g.len g.msg g.allocated g.delivered g.nif s in
    let (log, s'') = session gs s' in ((g, calls) ∷ log, s'')

-- Silence, or a broadcast that answers the datagram.
abbrev pub Outcome : Server → Option ℕ → Received × List Socket.Call → Type 0
Outcome d udp (g, calls) =
    (calls ≡ Socket.pbuf_free Socket.request ∷ []) ⊎ Broadcasts d g.msg udp g.nif calls

session-Outcome :
    (d : Server) (gs : List Received) (s : Service)
    → length d.ip ≡ 4
    → length d.nm ≡ 4
    → IsLike d s.server
    → All (λ g. 548 ≤ length g.msg) gs
    → All (Outcome d s.udp) (session gs s).0 × ((session gs s).1.udp ≡ s.udp)
unfolding session Socket.receive
session-Outcome d [] s hi hn w all = (tt, refl)
session-Outcome d (g ∷ gs) s hi hn w (whole, all) =
    let next = (Socket.receive g.ticks g.tot_len g.len g.msg g.allocated g.delivered g.nif s).1 in
    let (rest, same) = session-Outcome d gs next hi hn (receive-IsLike d g s w) all in
    (
      (
        elim (receive-Broadcasts g.ticks g.tot_len g.len g.msg g.allocated g.delivered g.nif s
            (ap length w.same_ip ∙ hi) (ap length w.same_nm ∙ hn) w.slots whole) [
              | inl silent ↦ inl silent
              | inr (bytes, is, calls) ↦ inr (bytes, like-IsAnswer d s.server w is, calls)
            ],
        rest,
      ),
      same,
    )

pub fresh-IsLike :
    (ip nm : Bytes) (router : Bool) → IsLike (fresh_server ip nm router) (fresh_server ip nm router)
unfolding fresh_server
fresh-IsLike ip nm router = record {
  same_ip = refl;
  same_nm = refl;
  same_router = refl;
  slots = length-replicate {A = Lease} 8 (record { mac = zero_mac; expiry = 0 });
}

-- From dhcp_server_init on, for every datagram of any sequence: its pbuf is freed once, and before
-- that the server is either silent or broadcasts, to port 68, one datagram of at most 274 bytes, and
-- frees its pbuf. The transaction id, the flags, the hardware address and the cookie of that datagram
-- are as the client sent them, its address is one of the eight of the subnet, and each of its options
-- is found again, with its value, by the server's own search. The server's address and mask have four
-- bytes, and the structure that a datagram is copied to has 548.
pub session-Broadcasts :
    (created : Option ℕ) (ip nm : Bytes) (router : Bool) (gs : List Received)
    → length ip ≡ 4
    → length nm ≡ 4
    → All (λ g. 548 ≤ length g.msg) gs
    → (let s = (dhcp_server_init created ip nm router).1 in
        All (Outcome (fresh_server ip nm router) s.udp) (session gs s).0)
unfolding dhcp_server_init fresh_server
session-Broadcasts created ip nm router gs hi hn all =
    (session-Outcome (fresh_server ip nm router) gs (dhcp_server_init created ip nm router).1 hi hn
      (fresh-IsLike ip nm router) all).0
