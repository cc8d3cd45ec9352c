-- ===== src/Dhcp.antt =====
-- The DHCP server, dhcpserver/dhcpserver.c and dhcpserver.h.
--
-- A message is the received structure: `chaddr` is its client hardware address, `opt` the memory
-- from options + 4 on, whatever the client left there. `ticks` is get_ticks_ms(), which the search
-- for an address reads once for each lease. A reply is what is broadcast; the result of the send is
-- ignored by the code. An address of lwIP is the list of its four bytes in network order.
pub mod Expiry
pub mod Exclusive
pub mod Choice
pub mod Offer
pub mod Options
pub mod Cases
pub mod Tenancy
pub mod Socket
pub mod Readable
pub mod Sending
pub mod Session
pub mod Tests
use roman_firmware.Prelude.{
  ℕ, zero, suc, ◌+◌, ◌-◌, ◌*◌, ◌/◌, ◌%◌, ◌^◌, Bool, true, false, not, ◌&&◌, Option, none, some,
  List, [], ◌∷◌, ◌++◌, Bytes, length, take, drop, slice, get_or, set, replicate, bytes_eq, ltb, leb,
  ◌==◌, if◌then◌else◌,
}

-- DHCPS_MAX_IP, DHCPS_BASE_IP
abbrev pub max_ip : ℕ
max_ip = 8

abbrev pub base_ip : ℕ
base_ip = 16

abbrev pub default_lease_time_s : ℕ
default_lease_time_s = 24 * 60 * 60

pub record Lease : Type 0 where
  pub mac : Bytes
  pub expiry : ℕ

pub record Server : Type 0 where
  pub ip : Bytes
  pub nm : Bytes
  pub set_router_and_dns : Bool
  pub lease : List Lease

pub record Message : Type 0 where
  pub chaddr : Bytes
  pub opt : Bytes

pub record Reply : Type 0 where
  pub op : ℕ
  pub yiaddr : Bytes
  pub options : Bytes

abbrev pub zero_mac : Bytes
zero_mac = replicate 6 0

abbrev pub no_lease : Lease
no_lease = record { mac = []; expiry = 0 }

-- The loop of `opt_find` at index `i`: the index of the option. `none` stands for NULL, and for a
-- fuel that runs out.
unfoldable pub opt_find_from : ℕ → Bytes → ℕ → ℕ → Option ℕ
opt_find_from zero opt cmd i = none
opt_find_from (suc fuel) opt cmd i =
    let next = opt_find_from fuel opt cmd (i + (2 + get_or opt (i + 1) 0)) in
    if ltb i 308 && not (get_or opt i 0 == 255)
    then (if get_or opt i 0 == cmd then some i else next)
    else none

-- A round moves on by two bytes at least, so 155 rounds reach the end.
unfoldable pub opt_find : Bytes → ℕ → Option ℕ
unfolding opt_find_from
opt_find opt cmd = opt_find_from 155 opt cmd 0

unfoldable pub opt_write_n : ℕ → Bytes → Bytes
opt_write_n cmd bytes = cmd ∷ length bytes % 256 ∷ bytes

unfoldable pub opt_write_u8 : ℕ → ℕ → Bytes
opt_write_u8 cmd val = cmd ∷ 1 ∷ val ∷ []

unfoldable pub opt_write_u32 : ℕ → ℕ → Bytes
opt_write_u32 cmd val =
    cmd ∷ 4 ∷ val / 2 ^ 24 % 256 ∷ val / 2 ^ 16 % 256 ∷ val / 2 ^ 8 % 256 ∷ val % 256 ∷ []

unfoldable pub is_mac : Lease → Bytes → Bool
unfolding bytes_eq
is_mac l mac = bytes_eq (take 6 l.mac) (take 6 mac)

-- (int32_t)(expiry - ticks) < 0, with expiry = lease.expiry << 16 | 0xffff
unfoldable pub expired : Lease → ℕ → Bool
expired l ticks = leb (2 ^ 31) ((l.expiry * 2 ^ 16 + 0xFFFF + 2 ^ 32 - ticks) % 2 ^ 32)

-- lease.expiry as DHCPREQUEST sets it, in uint32_t
unfoldable pub expiry_at : ℕ → ℕ
expiry_at ticks = (ticks + default_lease_time_s * 1000) % 2 ^ 32 / 2 ^ 16

-- One round of the DHCPDISCOVER loop that finds no match, while no address has been chosen.
unfoldable pub consider : ℕ → ℕ → ℕ → Lease → ℕ × Lease
unfolding expired
consider ticks i yi l =
    if yi == max_ip
    then (if expired l ticks
        then (i, record l { mac = zero_mac })
        else ((if is_mac l zero_mac then i else yi), l))
    else (yi, l)

-- The loop from lease `i` on: the choice, and the leases.
unfoldable pub discover : (ℕ → ℕ) → Bytes → ℕ → ℕ → List Lease → ℕ × List Lease
unfolding consider is_mac
discover ticks chaddr i yi [] = (yi, [])
discover ticks chaddr i yi (l ∷ ls) =
    let (yi', l') = consider (ticks i) i yi l in
    let rest = discover ticks chaddr (i + 1) yi' ls in
    if is_mac l chaddr then (i, l ∷ ls) else (rest.0, l' ∷ rest.1)

-- The options behind the message type, up to the end marker.
unfoldable pub common_options : Server → Bytes
unfolding opt_write_n opt_write_u32
common_options d =
    opt_write_n 54 d.ip
    ++ (opt_write_n 1 d.nm
        ++ ((if d.set_router_and_dns then opt_write_n 3 d.ip ++ opt_write_n 6 d.ip else [])
            ++ (opt_write_u32 51 default_lease_time_s ++ 255 ∷ [])))

-- The reply with message type `kind` for lease `yi`.
unfoldable pub reply : Server → ℕ → ℕ → Reply
unfolding common_options opt_write_u8
reply d kind yi = record {
  op = 2;
  yiaddr = set d.ip 3 ((base_ip + yi) % 256);
  options = opt_write_u8 53 kind ++ common_options d;
}

unfoldable pub handle_discover : (ℕ → ℕ) → Message → Server → Option Reply × Server
unfolding discover reply
handle_discover ticks m d =
    let (yi, lease) = discover ticks m.chaddr 0 max_ip d.lease in
    let d' = record d { lease = lease } in
    if yi == max_ip then (none, d') else (some (reply d' 2 yi), d')

-- DHCPREQUEST once the address asked for is lease `yi` of this subnet.
unfoldable pub grant : ℕ → Message → ℕ → Server → Option Reply × Server
unfolding is_mac expiry_at reply
grant ticks m yi d =
    let l = get_or d.lease yi no_lease in
    let mac = if is_mac l m.chaddr then l.mac else take 6 m.chaddr in
    let d' = record d { lease = set d.lease yi (record { mac = mac; expiry = expiry_at ticks }) } in
    if not (is_mac l m.chaddr) && not (is_mac l zero_mac)
    then (none, d)
    else (some (reply d' 5 yi), d')

unfoldable pub request_at : ℕ → Message → Option ℕ → Server → Option Reply × Server
unfolding grant bytes_eq
request_at ticks m none d = (none, d)
request_at ticks m (some o) d =
    let yi = (get_or m.opt (o + 5) 0 + 256 - base_ip) % 256 in
    if not (bytes_eq (slice (o + 2) 3 m.opt) (take 3 d.ip))
    then (none, d)
    else if leb max_ip yi
    then (none, d)
    else grant ticks m yi d

unfoldable pub handle_request : ℕ → Message → Server → Option Reply × Server
unfolding request_at opt_find
handle_request ticks m d = request_at ticks m (opt_find m.opt 50) d

dispatch : (ℕ → ℕ) → Message → Option ℕ → Server → Option Reply × Server
unfolding handle_discover handle_request
dispatch ticks m none d = (none, d)
dispatch ticks m (some o) d =
    let kind = get_or m.opt (o + 2) 0 in
    if kind == 1
    then handle_discover ticks m d
    else if kind == 3
    then handle_request (ticks 0) m d
    else (none, d)

-- `dhcp_server_process` on a datagram of `tot_len` bytes, of which `len` were copied.
unfoldable pub dhcp_server_process : (ℕ → ℕ) → ℕ → ℕ → Message → Server → Option Reply × Server
unfolding dispatch opt_find
dhcp_server_process ticks tot_len len m d =
    if ltb tot_len 243
    then (none, d)
    else if ltb len 243
    then (none, d)
    else dispatch ticks m (opt_find m.opt 53) d

-- The start of `dhcp_server_init`: the address fields and an empty lease table.
unfoldable pub fresh_server : Bytes → Bytes → Bool → Server
fresh_server ip nm set_router_and_dns = record {
  ip = ip;
  nm = nm;
  set_router_and_dns = set_router_and_dns;
  lease = replicate max_ip (record { mac = zero_mac; expiry = 0 });
}
