-- ===== src/Dhcp/Readable.antt =====
-- The options of a reply, as the code's own search reads them.
use roman_firmware.Prelude.{
  ℕ, ◌+◌, ◌≤◌, ◌≡◌, refl, inl, inr, true, some, [], ◌∷◌, arith, Bytes, length, slice, Bool-cases,
}
use roman_firmware.Dhcp.{Server, reply, opt_find, opt_write_n}

-- An option of a text: the code's own search finds it, with these bytes.
abbrev pub OptionAt : Bytes → ℕ → Bytes → Type 0
OptionAt opt cmd bytes =
    (o : ℕ) × (opt_find opt cmd ≡ some o) × (slice (o + 2) (length bytes) opt ≡ bytes)

-- The options of a reply, in whichever place they stand.
pub record Readable (d : Server) (kind : ℕ) (opt : Bytes) : Type 0 where
  pub msg_type : OptionAt opt 53 (kind ∷ [])
  pub server_id : OptionAt opt 54 d.ip
  pub subnet_mask : OptionAt opt 1 d.nm
  pub lease_time : OptionAt opt 51 (0 ∷ 1 ∷ 81 ∷ 128 ∷ [])
  pub router : d.set_router_and_dns ≡ true → OptionAt opt 3 d.ip × OptionAt opt 6 d.ip

-- The bytes of an address.
four : (xs : Bytes) → length xs ≡ 4 → (a b c e : ℕ) × (xs ≡ a ∷ b ∷ c ∷ e ∷ [])
four [] h = absurd (omega arith)
four (a ∷ []) h = absurd (omega arith)
four (a ∷ b ∷ []) h = absurd (omega arith)
four (a ∷ b ∷ c ∷ []) h = absurd (omega arith)
four (a ∷ b ∷ c ∷ e ∷ []) h = (a, b, c, e, refl)
four (a ∷ b ∷ c ∷ e ∷ f ∷ xs) h = absurd (omega arith)

pub reply-Readable :
    (d : Server) (kind yi : ℕ)
    → length d.ip ≡ 4
    → length d.nm ≡ 4
    → Readable d kind (reply d kind yi).options
unfolding reply opt_find opt_write_n
reply-Readable d kind yi hi hn =
    let (a, b, c, e, ip) = four d.ip hi in
    let (a', b', c', e', nm) = four d.nm hn in
    elim (Bool-cases d.set_router_and_dns) [
      | inl on ↦ record {
        msg_type = rw (ip, nm, on) (0, refl, refl);
        server_id = rw (ip, nm, on) (3, refl, refl);
        subnet_mask = rw (ip, nm, on) (9, refl, refl);
        lease_time = rw (ip, nm, on) (27, refl, refl);
        router = λ r. rw (ip, nm, on) ((15, refl, refl), (21, refl, refl));
      }
      | inr off ↦ record {
        msg_type = rw (ip, nm, off) (0, refl, refl);
        server_id = rw (ip, nm, off) (3, refl, refl);
        subnet_mask = rw (ip, nm, off) (9, refl, refl);
        lease_time = rw (ip, nm, off) (15, refl, refl);
        router = λ r. cc;
      }
    ]

pub reply-length :
    (d : Server) (kind yi : ℕ)
    → length d.ip ≡ 4
    → length d.nm ≡ 4
    → length (reply d kind yi).options ≤ 34
unfolding reply opt_write_n
reply-length d kind yi hi hn =
    let (a, b, c, e, ip) = four d.ip hi in
    let (a', b', c', e', nm) = four d.nm hn in
    elim (Bool-cases d.set_router_and_dns) [
      | inl on ↦ rw (ip, nm, on) (omega arith)
      | inr off ↦ rw (ip, nm, off) (omega arith)
    ]
