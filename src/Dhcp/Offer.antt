-- ===== src/Dhcp/Offer.antt =====
-- What DHCPDISCOVER offers, DHCPREQUEST grants.
use roman_firmware.Prelude.{
  ℕ, zero, suc, ◌-◌, ◌≤◌, sym, take, drop, slice, bytes_eq, bytes_eq_refl, le→ltb, leb, ◌+◌, ◌%◌,
  ◌<◌, ◌≡◌, refl, ap, subst, ◌∙◌, inl, inr, true, false, Option, some, [], ◌∷◌, arith, Bytes,
  length, get_or, set, Bool-cases, ◌==◌,
}
use roman_firmware.Dhcp.{
  base_ip, Server, Message, Reply, max_ip, zero_mac, no_lease, is_mac, reply, opt_write_u8,
  opt_find, request_at, handle_request, dispatch, dhcp_server_process, discover, handle_discover,
  grant,
}
use roman_firmware.Dhcp.Cases.{process-each}
use roman_firmware.Dhcp.Choice.{Open, discover-Chosen, Chosen-Open}

-- The first four bytes are the address with its last byte replaced.
take-address :
    (xs ip : Bytes) (b : ℕ)
    → length ip ≡ 4
    → take 4 xs ≡ set ip 3 b
    → (take 3 xs ≡ take 3 ip) × (get_or xs 3 0 ≡ b)
take-address xs [] b size e = absurd (omega arith)
take-address xs (i ∷ []) b size e = absurd (omega arith)
take-address xs (i ∷ j ∷ []) b size e = absurd (omega arith)
take-address xs (i ∷ j ∷ k ∷ []) b size e = absurd (omega arith)
take-address xs (i ∷ j ∷ k ∷ l ∷ n ∷ ip) b size e = absurd (omega arith)
take-address [] (i ∷ j ∷ k ∷ l ∷ []) b size e = cc
take-address (w ∷ []) (i ∷ j ∷ k ∷ l ∷ []) b size e = cc
take-address (w ∷ x ∷ []) (i ∷ j ∷ k ∷ l ∷ []) b size e = cc
take-address (w ∷ x ∷ y ∷ []) (i ∷ j ∷ k ∷ l ∷ []) b size e = cc
take-address (w ∷ x ∷ y ∷ z ∷ xs) (i ∷ j ∷ k ∷ l ∷ []) b size e = (cc, cc)

get_or-drop : (xs : Bytes) (p i : ℕ) → get_or (drop p xs) i 0 ≡ get_or xs (p + i) 0
get_or-drop xs zero i = ap (λ k. get_or xs k 0) {x = i} {y = 0 + i} (omega arith)
get_or-drop [] (suc p) i = refl
get_or-drop (x ∷ xs) (suc p) i =
    get_or-drop xs p i
    ∙ ap (λ k. get_or (x ∷ xs) k 0) {x = suc (p + i)} {y = suc p + i} (omega arith)

-- A request that carries the address of lease `yi` is one for lease `yi`.
request_at-grant :
    (t q yi : ℕ) (m : Message) (d : Server)
    → yi < max_ip
    → length d.ip ≡ 4
    → slice (q + 2) 4 m.opt ≡ set d.ip 3 ((base_ip + yi) % 256)
    → request_at t m (some q) d ≡ grant t m yi d
unfolding request_at
request_at-grant t q yi m d h size e =
    let (subnet, last) = take-address (drop (q + 2) m.opt) d.ip ((base_ip + yi) % 256) size e in
    let byte : get_or m.opt (q + 5) 0 ≡ (base_ip + yi) % 256 =
      ap (λ k. get_or m.opt k 0) (omega arith) ∙ sym (get_or-drop m.opt (q + 2) 3) ∙ last in
    let same : bytes_eq (slice (q + 2) 3 m.opt) (take 3 d.ip) ≡ true =
      ap (λ xs. bytes_eq xs (take 3 d.ip)) subnet ∙ bytes_eq_refl (take 3 d.ip) in
    let at : (get_or m.opt (q + 5) 0 + 256 - base_ip) % 256 ≡ yi = omega arith in
    let inside : leb max_ip yi ≡ false = ground arith in rw (same, at, inside, request_at) refl

-- `m` is a DHCPREQUEST for address `ip`, with its options at `o` and `q`.
abbrev pub Requests : Bytes → Message → Type 0
Requests ip m =
    (o : ℕ) × (q : ℕ) × (opt_find m.opt 53 ≡ some o)
    × (get_or m.opt (o + 2) 0 ≡ 3)
    × (opt_find m.opt 50 ≡ some q)
    × (slice (q + 2) 4 m.opt ≡ ip)

process-grant :
    (ticks : ℕ → ℕ) (tot_len len yi : ℕ) (m : Message) (d : Server)
    → 243 ≤ tot_len
    → 243 ≤ len
    → yi < max_ip
    → length d.ip ≡ 4
    → Requests (set d.ip 3 ((base_ip + yi) % 256)) m
    → dhcp_server_process ticks tot_len len m d ≡ grant (ticks 0) m yi d
unfolding dhcp_server_process dispatch handle_request
process-grant ticks tot_len len yi m d whole copied h size (o, q, typed, kind, asked, e) =
    rw
      (
        le→ltb tot_len 243 whole,
        le→ltb len 243 copied,
        typed,
        dhcp_server_process,
        kind,
        dispatch,
        asked,
      )
      (request_at-grant (ticks 0) q yi m d h size e)

-- The answer is for address `ip`, of message type `kind`.
abbrev pub Answers : ℕ → Bytes → Option Reply → Type 0
Answers kind ip answer =
    (r : Reply) × (answer ≡ some r) × (get_or r.options 2 0 ≡ kind) × (r.yiaddr ≡ ip)

grant-Answers :
    (ticks : ℕ) (m : Message) (yi : ℕ) (d : Server)
    → Open m.chaddr (get_or d.lease yi no_lease)
    → Answers 5 (set d.ip 3 ((base_ip + yi) % 256)) (grant ticks m yi d).0
unfolding grant reply opt_write_u8
grant-Answers ticks m yi d (inl mine) = rw mine (_, refl, refl, refl)
grant-Answers ticks m yi d (inr free) =
    elim (Bool-cases (is_mac (get_or d.lease yi no_lease) m.chaddr)) [
      | inl mine ↦ rw mine (_, refl, refl, refl)
      | inr other ↦ rw (other, free) (_, refl, refl, refl)
    ]

-- An answer of type DHCPOFFER is for an open lease.
abbrev Offers : Bytes → Server → Option Reply × Server → Type 0
Offers chaddr d (answer, d') =
    (r : Reply)
    → answer ≡ some r
    → get_or r.options 2 0 ≡ 2
    → (d'.ip ≡ d.ip)
      × ((yi : ℕ) × (yi < max_ip)
          × (r.yiaddr ≡ set d.ip 3 ((base_ip + yi) % 256))
          × Open chaddr (get_or d'.lease yi no_lease))

discover-Offers :
    (ticks : ℕ → ℕ) (m : Message) (d : Server)
    → length d.lease ≡ max_ip
    → Offers m.chaddr d (handle_discover ticks m d)
unfolding handle_discover reply
discover-Offers ticks m d h =
    let y = (discover ticks m.chaddr 0 max_ip d.lease).0 in
    let (size, case) = discover-Chosen ticks m.chaddr d.lease 0 max_ip in
    elim (Bool-cases (y == max_ip)) [
      | inl full ↦ rw full (λ r e kind. cc)
      | inr some_ ↦
          let (bound, open_) = Chosen-Open m.chaddr y _ (size ∙ h) some_ case in
          rw some_ (λ r e kind.
            let same : reply (record d { lease = (discover ticks m.chaddr 0 max_ip d.lease).1 }) 2 y
                ≡ r =
              cc in
            (refl, (y, bound, ap (λ (o : Reply). o.yiaddr) (sym same), open_)))
    ]

grant-Offers :
    (ticks : ℕ) (m : Message) (yi : ℕ) (d : Server) → Offers m.chaddr d (grant ticks m yi d)
unfolding grant reply opt_write_u8
grant-Offers ticks m yi d r e kind =
    elim (Bool-cases (is_mac (get_or d.lease yi no_lease) m.chaddr)) [
      | inl mine ↦ absurd (acknowledges _ refl (rw (mine, grant) at e))
      | inr other ↦ elim (Bool-cases (is_mac (get_or d.lease yi no_lease) zero_mac)) [
        | inl free ↦ absurd (acknowledges _ refl (rw (other, free, grant) at e))
        | inr held ↦ cc (rw (other, held, grant) at e)
      ]
    ]
  where
    acknowledges : (x : Reply) → get_or x.options 2 0 ≡ 5 → some x ≡ some r → ⊥
    acknowledges x ack e =
        let same : x ≡ r = cc in
        let two : get_or x.options 2 0 ≡ 2 = ap (λ (o : Reply). get_or o.options 2 0) same ∙ kind in
        omega arith

-- If the answer to a datagram is a DHCPOFFER, every DHCPREQUEST for the address offered, by the client
-- with the same hardware address, is answered with a DHCPACK for that address, when it comes on the
-- leases that the offer left. The lease table has its full length and the server's address four bytes,
-- and of the request 243 bytes or more came in and were copied.
pub offer-Honoured :
    (ticks later : ℕ → ℕ) (tot_len len tot_len' len' : ℕ) (m m' : Message) (d : Server) (r : Reply)
    → length d.lease ≡ max_ip
    → length d.ip ≡ 4
    → (dhcp_server_process ticks tot_len len m d).0 ≡ some r
    → get_or r.options 2 0 ≡ 2
    → m'.chaddr ≡ m.chaddr
    → Requests r.yiaddr m'
    → 243 ≤ tot_len'
    → 243 ≤ len'
    → Answers 5 r.yiaddr
        (dhcp_server_process later tot_len' len' m' (dhcp_server_process ticks tot_len len m d).1).0
offer-Honoured ticks later tot_len len tot_len' len' m m' d r h size e kind mac asks whole copied =
    let d' = (dhcp_server_process ticks tot_len len m d).1 in
    let (ip, (yi, bound, at, open_)) =
      process-each (Offers m.chaddr d) ticks m d (λ r e kind. cc) (discover-Offers ticks m d h)
        (λ yi bound. grant-Offers (ticks 0) m yi d) tot_len len r e kind in
    let here : r.yiaddr ≡ set d'.ip 3 ((base_ip + yi) % 256) =
      at ∙ ap (λ a. set a 3 ((base_ip + yi) % 256)) (sym ip) in
    let granted =
      process-grant later tot_len' len' yi m' d' whole copied bound (ap length ip ∙ size)
        (subst (λ a. Requests a m') here asks) in
    subst (λ a. Answers 5 a (dhcp_server_process later tot_len' len' m' d').0) (sym here)
      (subst (Answers 5 (set d'.ip 3 ((base_ip + yi) % 256)))
        (ap (λ (x : Option Reply × Server). x.0) (sym granted))
        (grant-Answers (later 0) m' yi d'
          (subst (λ c. Open c (get_or d'.lease yi no_lease)) (sym mac) open_)))
