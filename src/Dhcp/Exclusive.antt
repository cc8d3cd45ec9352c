-- ===== src/Dhcp/Exclusive.antt =====
-- No address goes to two clients: what DHCPDISCOVER offers and DHCPREQUEST grants.
use roman_firmware.Prelude.{
  ℕ, zero, suc, ◌+◌, ◌<◌, ◌≡◌, ◌≢◌, refl, ◌⊎◌, inl, inr, true, false, none, List, [], ◌∷◌, arith,
  Bytes, length, take, get_or, set, get_or-set_self, get_or-set_ne, take-take, bytes_eq_refl,
  Bool-cases, ◌==◌,
}
use roman_firmware.Dhcp.{
  Lease, Server, Message, max_ip, zero_mac, no_lease, is_mac, expired, consider, discover,
  expiry_at, grant,
}

is_mac_refl :
    (expiry : ℕ) (mac : Bytes) → is_mac (record { mac = take 6 mac; expiry = expiry }) mac ≡ true
unfolding is_mac
is_mac_refl expiry mac = rw (take-take 6 mac) (bytes_eq_refl (take 6 mac))

pub is_mac_zero : (expiry : ℕ) → is_mac (record { mac = zero_mac; expiry = expiry }) zero_mac ≡ true
unfolding is_mac
is_mac_zero expiry = refl

-- What `grant` does with lease `yi`: grants it, or refuses and changes nothing.
abbrev pub Exclusive : ℕ → Message → ℕ → Server → Type 0
Exclusive ticks m yi d =
    let l = get_or d.lease yi no_lease in
    let (answer, d') = grant ticks m yi d in
    ((is_mac l m.chaddr ≡ true) ⊎ (is_mac l zero_mac ≡ true))
      × (answer ≢ none)
      × (is_mac (get_or d'.lease yi no_lease) m.chaddr ≡ true)
      × ((j : ℕ) → yi ≢ j → get_or d'.lease j no_lease ≡ get_or d.lease j no_lease)
    ⊎ (is_mac l m.chaddr ≡ false) × (is_mac l zero_mac ≡ false) × (answer ≡ none) × (d' ≡ d)

-- A request for lease `yi` is granted exactly if the lease is the client's or nobody's. Then the
-- lease is the client's, and every other lease is as it was. Otherwise nothing changes.
pub grant-Exclusive :
    (ticks : ℕ) (m : Message) (yi : ℕ) (d : Server) → yi < length d.lease → Exclusive ticks m yi d
unfolding grant
grant-Exclusive ticks m yi d h =
    let l = get_or d.lease yi no_lease in
    let entry : Bytes → Lease = λ mac. record { mac = mac; expiry = expiry_at ticks } in
    let held : (mac : Bytes)
        → is_mac (entry mac) m.chaddr ≡ true
        → is_mac (get_or (set d.lease yi (entry mac)) yi no_lease) m.chaddr ≡ true =
      λ mac e. rw (get_or-set_self d.lease yi (entry mac) no_lease h) e in
    elim (Bool-cases (is_mac l m.chaddr)) [
      | inl mine ↦
          rw (mine, grant)
            (inl (inl refl, (λ e. cc), held l.mac mine, λ j ne. get_or-set_ne d.lease yi j _ _ ne))
      | inr other ↦ elim (Bool-cases (is_mac l zero_mac)) [
        | inl free ↦
            rw (other, free, grant)
              (inl (
                inr refl,
                (λ e. cc),
                held (take 6 m.chaddr) (is_mac_refl (expiry_at ticks) m.chaddr),
                λ j ne. get_or-set_ne d.lease yi j _ _ ne,
              ))
        | inr taken ↦ inr (other, taken, rw (other, taken) refl, rw (other, taken) refl)
      ]
    ]

-- What the search did to one lease: nothing, or it cleared an expired one.
abbrev pub Kept : ℕ → Lease → Lease → Type 0
Kept ticks before after =
    (after ≡ before) ⊎ (expired before ticks ≡ true) × (is_mac after zero_mac ≡ true)

consider-Kept : (ticks i yi : ℕ) (l : Lease) → Kept ticks l (consider ticks i yi l).1
unfolding consider
consider-Kept ticks i yi l = elim (Bool-cases (yi == max_ip)) [
  | inl open_ ↦ elim (Bool-cases (expired l ticks)) [
    | inl e ↦ rw (open_, e) (inr (refl, is_mac_zero l.expiry))
    | inr v ↦ rw (open_, v) (inl refl)
  ]
  | inr chosen ↦ rw chosen (inl refl)
]

-- The search for an address leaves each lease as it is, or clears one that has expired at the time
-- that is read for it.
pub discover-Kept :
    (ticks : ℕ → ℕ) (chaddr : Bytes) (ls : List Lease) (i yi j : ℕ)
    → j < length ls
    → Kept
        (ticks (i + j))
        (get_or ls j no_lease)
        (get_or (discover ticks chaddr i yi ls).1 j no_lease)
unfolding discover
discover-Kept ticks chaddr [] i yi j h = elim h [ ]
discover-Kept ticks chaddr (l ∷ ls) i yi zero h =
    let same_index : i + 0 ≡ i = omega arith in
    elim (Bool-cases (is_mac l chaddr)) [
      | inl same ↦ rw same (inl refl)
      | inr other ↦ rw (other, same_index) (consider-Kept (ticks i) i yi l)
    ]
discover-Kept ticks chaddr (l ∷ ls) i yi (suc j) h =
    let next_index : i + suc j ≡ i + 1 + j = omega arith in
    elim (Bool-cases (is_mac l chaddr)) [
      | inl same ↦ rw same (inl refl)
      | inr other ↦ rw (other, next_index) (discover-Kept ticks chaddr ls (i + 1) _ j (omega arith))
    ]
