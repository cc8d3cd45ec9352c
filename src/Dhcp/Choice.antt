-- ===== src/Dhcp/Choice.antt =====
-- Which lease DHCPDISCOVER chooses: one that a request by the client is granted for.
use roman_firmware.Prelude.{
  ℕ, suc, ◌+◌, ◌<◌, ◌≡◌, refl, ap, subst, ◌∙◌, ◌⊎◌, inl, inr, true, false, List, [], ◌∷◌, arith,
  Bytes, length, get_or, Bool-cases, ◌==◌,
}
use roman_firmware.Dhcp.{Lease, max_ip, zero_mac, no_lease, is_mac, expired, consider, discover}
use roman_firmware.Dhcp.Exclusive.{is_mac_zero}

-- A lease that a request by the client is granted for.
abbrev pub Open : Bytes → Lease → Type 0
Open chaddr l = (is_mac l chaddr ≡ true) ⊎ (is_mac l zero_mac ≡ true)

-- Index `y`, counted from `i`, is of an open lease of `ls`.
abbrev pub Chosen : Bytes → ℕ → ℕ → List Lease → Type 0
Chosen chaddr i y ls = (j : ℕ) × (y ≡ i + j) × (j < length ls) × Open chaddr (get_or ls j no_lease)

consider-Chosen :
    (ticks i yi : ℕ) (l : Lease)
    → (let (y, l') = consider ticks i yi l in (y ≡ yi) ⊎ (y ≡ i) × (is_mac l' zero_mac ≡ true))
unfolding consider
consider-Chosen ticks i yi l = elim (Bool-cases (yi == max_ip)) [
  | inl open_ ↦ elim (Bool-cases (expired l ticks)) [
    | inl e ↦ rw (open_, e) (inr (refl, is_mac_zero l.expiry))
    | inr v ↦ elim (Bool-cases (is_mac l zero_mac)) [
      | inl free ↦ inr (rw (open_, v, free) refl, rw (open_, v) free)
      | inr held ↦ rw (open_, v, held) (inl refl)
    ]
  ]
  | inr chosen ↦ rw chosen (inl refl)
]

-- One more lease in front.
cons-Chosen :
    (chaddr : Bytes) (i yi y z : ℕ) (l : Lease) (ls : List Lease)
    → (y ≡ yi) ⊎ (y ≡ i) × (is_mac l zero_mac ≡ true)
    → (z ≡ y) ⊎ Chosen chaddr (i + 1) z ls
    → (z ≡ yi) ⊎ Chosen chaddr i z (l ∷ ls)
cons-Chosen chaddr i yi y z l ls (inl same) (inl kept) = inl (kept ∙ same)
cons-Chosen chaddr i yi y z l ls (inr (here, free)) (inl kept) =
    inr (0, omega arith, omega arith, inr free)
cons-Chosen chaddr i yi y z l ls first (inr (j, e, h, open_)) =
    inr (suc j, omega arith, omega arith, open_)

pub discover-Chosen :
    (ticks : ℕ → ℕ) (chaddr : Bytes) (ls : List Lease) (i yi : ℕ)
    → (let (y, ls') = discover ticks chaddr i yi ls in
        (length ls' ≡ length ls) × ((y ≡ yi) ⊎ Chosen chaddr i y ls'))
unfolding discover
discover-Chosen ticks chaddr [] i yi = (refl, inl refl)
discover-Chosen ticks chaddr (l ∷ ls) i yi =
    let (y, l') = consider (ticks i) i yi l in
    let rest = discover-Chosen ticks chaddr ls (i + 1) y in
    elim (Bool-cases (is_mac l chaddr)) [
      | inl same ↦ rw same (refl, inr (0, omega arith, omega arith, inl same))
      | inr other ↦ rw other (
        ap suc rest.0,
        cons-Chosen chaddr i yi y _ l' _ (consider-Chosen (ticks i) i yi l) rest.1,
      )
    ]

-- An address that was chosen is that of an open lease.
pub Chosen-Open :
    (chaddr : Bytes) (y : ℕ) (ls : List Lease)
    → length ls ≡ max_ip
    → (y == max_ip) ≡ false
    → (y ≡ max_ip) ⊎ Chosen chaddr 0 y ls
    → (y < max_ip) × Open chaddr (get_or ls y no_lease)
Chosen-Open chaddr y ls size some_ (inl e) = absurd (ground arith)
Chosen-Open chaddr y ls size some_ (inr (j, e, h, open_)) =
    (omega arith, subst (λ k. Open chaddr (get_or ls k no_lease)) (omega arith) open_)
