-- ===== src/Dhcp/Sending.antt =====
-- What the DHCP server sends, byte by byte.
use roman_firmware.Prelude.{
  ℕ, zero, suc, ◌+◌, ◌≤◌, ◌<◌, ◌≡◌, refl, ap, ◌∙◌, ◌⊎◌, inl, inr, Bool, true, false, Option, none,
  some, List, [], ◌∷◌, arith, Bytes, length, length-take, take, drop, slice, get_or, set, write_at,
  length-write_at, slice-write_self, slice-write_before, slice-write_after, slice-take, length-set,
  Bool-cases, ◌==◌, ltb, le→ltb, take-all,
}
use roman_firmware.Dhcp.{
  max_ip, Server, Message, Reply, no_lease, zero_mac, is_mac, reply, discover, handle_discover,
  grant, dhcp_server_process,
}
use roman_firmware.Dhcp.Cases.{process-each}
use roman_firmware.Dhcp.Choice.{discover-Chosen, Chosen-Open}
use roman_firmware.Dhcp.Socket
use roman_firmware.Dhcp.Readable.{Readable, reply-Readable, reply-length}

-- A broadcast datagram `bytes` that answers `msg`: the header fields that identify the request are
-- as the client sent them, the address is one of the eight, and the options can be read.
pub record IsAnswer (d : Server) (msg bytes : Bytes) : Type 0 where
  pub kind : ℕ
  pub offered : ℕ
  pub size : length bytes ≤ 274
  pub op : slice 0 1 bytes ≡ 2 ∷ []
  pub xid : slice 4 4 bytes ≡ slice 4 4 msg
  pub flags : slice 10 2 bytes ≡ slice 10 2 msg
  pub yiaddr : slice 16 4 bytes ≡ set d.ip 3 (16 + offered)
  pub inside : offered < 8
  pub chaddr : slice 28 16 bytes ≡ slice 28 16 msg
  pub cookie : slice 236 4 bytes ≡ slice 236 4 msg
  pub kinds : (kind ≡ 2) ⊎ (kind ≡ 5)
  pub options : Readable d kind (drop 240 bytes)

-- The outcome of a message: nothing, or an offer or acknowledgement of one of the eight leases.
abbrev Made : Server → Option Reply × Server → Type 0
Made d (r, d') =
    (r ≡ none)
    ⊎ ((kind yi : ℕ) × ((kind ≡ 2) ⊎ (kind ≡ 5)) × (yi < 8) × (r ≡ some (reply d kind yi)))

discover-Made :
    (ticks : ℕ → ℕ) (m : Message) (d : Server)
    → length d.lease ≡ 8
    → Made d (handle_discover ticks m d)
unfolding handle_discover reply
discover-Made ticks m d h =
    let (y, ls) = discover ticks m.chaddr 0 max_ip d.lease in
    let (size, case) = discover-Chosen ticks m.chaddr d.lease 0 max_ip in
    elim (Bool-cases (y == max_ip)) [
      | inl full ↦ rw (full, handle_discover) (inl refl)
      | inr some_ ↦
          let (bound, _) = Chosen-Open m.chaddr y ls (size ∙ h) some_ case in
          rw (some_, handle_discover) (inr (2, y, inl refl, bound, refl))
    ]

grant-Made : (ticks yi : ℕ) (m : Message) (d : Server) → yi < 8 → Made d (grant ticks m yi d)
unfolding grant reply
grant-Made ticks yi m d h =
    let l = get_or d.lease yi no_lease in
    elim (Bool-cases (is_mac l m.chaddr)) [
      | inl mine ↦ rw (mine, grant) (inr (5, yi, inr refl, h, refl))
      | inr other ↦ elim (Bool-cases (is_mac l zero_mac)) [
        | inl free ↦ rw (other, free, grant) (inr (5, yi, inr refl, h, refl))
        | inr taken ↦ rw (other, taken, grant) (inl refl)
      ]
    ]

process-Made :
    (ticks : ℕ → ℕ) (tot_len len : ℕ) (m : Message) (d : Server)
    → length d.lease ≡ 8
    → Made d (dhcp_server_process ticks tot_len len m d)
process-Made ticks tot_len len m d h =
    process-each (Made d) ticks m d (inl refl) (discover-Made ticks m d h)
      (λ yi. grant-Made (ticks 0) yi m d) tot_len len

drop-take : (p n j : ℕ) (xs : Bytes) → j ≡ p + n → drop p (take j xs) ≡ slice p n xs
drop-take zero n j xs e = ap (λ k. take k xs) {x = j} {y = n} (omega arith)
drop-take (suc p) n zero xs e = absurd (omega arith)
drop-take (suc p) zero (suc j) [] e = refl
drop-take (suc p) (suc n) (suc j) [] e = refl
drop-take (suc p) n (suc j) (x ∷ xs) e = drop-take p n j xs (omega arith)

module _ (d : Server) (msg : Bytes) (kind yi : ℕ) (hi : length d.ip ≡ 4) (hn : length d.nm ≡ 4)
    (whole : 548 ≤ length msg) where
  abbrev made : Reply
  made = reply d kind yi

  -- The structure with the fields before the options written.
  abbrev header : Bytes
  header = write_at 16 made.yiaddr (write_at 0 (2 ∷ []) msg)

  header-length : length header ≡ length msg
  header-length =
      length-write_at 16 made.yiaddr (write_at 0 (2 ∷ []) msg) ∙ length-write_at 0 (2 ∷ []) msg

  yiaddr-length : length made.yiaddr ≡ 4
  unfolding reply
  yiaddr-length = length-set d.ip 3 _ ∙ hi

  -- Before the options the datagram is the header.
  slice-datagram :
      (i k : ℕ) → i + k ≤ 240 → slice i k (Socket.datagram_of msg made) ≡ slice i k header
  unfolding Socket.datagram_of reply
  slice-datagram i k h =
      slice-take i k (240 + length made.options) (write_at 240 made.options header) (omega arith)
      ∙ slice-write_before i k 240 made.options header h

  -- Behind the address the header is as the client sent it, and before it, but for the first byte.
  slice-header_after : (i k : ℕ) → 20 ≤ i → slice i k header ≡ slice i k msg
  slice-header_after i k h =
      slice-write_after i k 16 made.yiaddr (write_at 0 (2 ∷ []) msg) (omega (arith, yiaddr-length))
      ∙ slice-write_after i k 0 (2 ∷ []) msg (omega arith)

  slice-header_before : (i k : ℕ) → 1 ≤ i → i + k ≤ 16 → slice i k header ≡ slice i k msg
  slice-header_before i k lo hi' =
      slice-write_before i k 16 made.yiaddr (write_at 0 (2 ∷ []) msg) hi'
      ∙ slice-write_after i k 0 (2 ∷ []) msg (omega arith)

  datagram-options : drop 240 (Socket.datagram_of msg made) ≡ made.options
  unfolding Socket.datagram_of reply
  datagram-options =
      drop-take 240 (length made.options) _ (write_at 240 made.options header) refl
      ∙ slice-write_self 240 (length made.options) made.options header refl
          (omega (arith, header-length, reply-length d kind yi hi hn))

  datagram-IsAnswer :
      yi < 8 → (kind ≡ 2) ⊎ (kind ≡ 5) → IsAnswer d msg (Socket.datagram_of msg made)
  unfolding Socket.datagram_of reply
  datagram-IsAnswer bound kinds = record {
    kind = kind;
    offered = yi;
    size = omega (
      arith,
      length-take (240 + length made.options) (write_at 240 made.options header),
      reply-length d kind yi hi hn,
    );
    op =
        slice-datagram 0 1 (omega arith)
        ∙ (slice-write_before 0 1 16 made.yiaddr (write_at 0 (2 ∷ []) msg) (omega arith)
            ∙ slice-write_self 0 1 (2 ∷ []) msg refl (omega arith));
    xid = slice-datagram 4 4 (omega arith) ∙ slice-header_before 4 4 (omega arith) (omega arith);
    flags =
        slice-datagram 10 2 (omega arith) ∙ slice-header_before 10 2 (omega arith) (omega arith);
    yiaddr =
        slice-datagram 16 4 (omega arith)
        ∙ (slice-write_self 16 4 made.yiaddr (write_at 0 (2 ∷ []) msg) yiaddr-length
              (omega (arith, length-write_at 0 (2 ∷ []) msg))
            ∙ ap (set d.ip 3) (omega arith));
    inside = bound;
    chaddr = slice-datagram 28 16 (omega arith) ∙ slice-header_after 28 16 (omega arith);
    cookie = slice-datagram 236 4 (omega arith) ∙ slice-header_after 236 4 (omega arith);
    kinds = kinds;
    options = rw datagram-options (reply-Readable d kind yi hi hn);
  }

-- What is called for an answer.
abbrev pub Broadcasts : Server → Bytes → Option ℕ → Option ℕ → List Socket.Call → Type 0
Broadcasts d msg udp nif calls =
    (bytes : Bytes) × IsAnswer d msg bytes
    × (calls
        ≡ Socket.send udp nif bytes (255 ∷ 255 ∷ 255 ∷ 255 ∷ []) 68
          ∷ Socket.pbuf_free Socket.response
          ∷ Socket.pbuf_free Socket.request
          ∷ [])

answer-Broadcasts :
    (allocated delivered : Bool) (udp nif : Option ℕ) (d : Server) (msg bytes : Bytes) (r : Reply)
    → Socket.datagram_of msg r ≡ bytes
    → IsAnswer d msg bytes
    → (let calls = Socket.answer allocated delivered udp nif msg (some r) in
        (calls ≡ Socket.pbuf_free Socket.request ∷ []) ⊎ Broadcasts d msg udp nif calls)
unfolding Socket.answer Socket.dhcp_socket_sendto
answer-Broadcasts false delivered udp nif d msg bytes r e is = inl refl
answer-Broadcasts true delivered udp nif d msg bytes r e is =
    let short : ltb 0xFFFF (length bytes) ≡ false =
      le→ltb 0xFFFF (length bytes) (omega (arith, is.size)) in
    inr (bytes, is, rw (e, short, take-all (length bytes) bytes refl) refl)

-- One datagram: silence, or a broadcast that answers it.
pub receive-Broadcasts :
    (ticks : ℕ → ℕ) (tot_len len : ℕ) (msg : Bytes) (allocated delivered : Bool) (nif : Option ℕ)
    (s : Socket.Service)
    → length s.server.ip ≡ 4
    → length s.server.nm ≡ 4
    → length s.server.lease ≡ 8
    → 548 ≤ length msg
    → (let (calls, s') = Socket.receive ticks tot_len len msg allocated delivered nif s in
        (calls ≡ Socket.pbuf_free Socket.request ∷ []) ⊎ Broadcasts s.server msg s.udp nif calls)
unfolding Socket.receive Socket.answer
receive-Broadcasts ticks tot_len len msg allocated delivered nif s hi hn slots whole =
    elim (process-Made ticks tot_len len (Socket.message_of msg) s.server slots) [
      | inl silent ↦ rw (silent, Socket.answer) (inl refl)
      | inr (kind, yi, kinds, bound, made) ↦ rw made (
          answer-Broadcasts allocated delivered s.udp nif s.server msg _ (reply s.server kind yi)
            refl (datagram-IsAnswer s.server msg kind yi hi hn whole bound kinds))
    ]
