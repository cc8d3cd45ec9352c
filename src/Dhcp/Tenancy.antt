-- ===== src/Dhcp/Tenancy.antt =====
-- An acknowledged address stays its client's for the time of the lease, whatever other clients send.
use roman_firmware.Prelude.{
  ℕ, ◌+◌, ◌%◌, ◌^◌, ◌≤◌, ◌<◌, ◌≡◌, ◌≢◌, ap, inl, inr, false, Option, none, some, List, [], ◌∷◌,
  Bytes, length, get_or,
}
use roman_firmware.Dhcp.{
  Lease, Server, Message, Reply, zero_mac, no_lease, is_mac, expiry_at, dhcp_server_process,
}
use roman_firmware.Dhcp.Choice.{Open}

-- A datagram with what the code reads of it, and the clock while it is handled.
pub record Datagram : Type 0 where
  pub ticks : ℕ → ℕ
  pub tot_len : ℕ
  pub len : ℕ
  pub message : Message

-- Datagrams one after the other: the replies, and the server.
unfoldable pub serve : List Datagram → Server → List (Option Reply) × Server
serve [] d = ([], d)
serve (g ∷ gs) d =
    let (r, d') = dhcp_server_process g.ticks g.tot_len g.len g.message d in
    let (rs, d'') = serve gs d' in (r ∷ rs, d'')

-- No more than 24 hours after `t`, by the millisecond counter.
abbrev pub Timely : ℕ → (ℕ → ℕ) → Type 0
Timely t ticks = (k : ℕ) → (elapsed : ℕ) × (elapsed ≤ 86400000) × (ticks k ≡ (t + elapsed) % 2 ^ 32)

-- From another client, in time.
abbrev pub Foreign : ℕ → Lease → Datagram → Type 0
Foreign t l g = Timely t g.ticks × (is_mac l g.message.chaddr ≡ false)

-- A reply does not give address `i` away.
abbrev pub Apart : ℕ → Option Reply → Type 0
Apart i none = Unit
Apart i (some r) = get_or r.yiaddr 3 0 ≢ 16 + i

-- Lease `i` as it was acknowledged at time `t`, in a table of full length.
pub record IsTenant (t i : ℕ) (mac : Bytes) (d : Server) : Type 0 where
  pub slots : length d.lease ≡ 8
  pub ip_size : length d.ip ≡ 4
  pub inside : i < 8
  pub entry : get_or d.lease i no_lease ≡ record { mac = mac; expiry = expiry_at t }

-- A step that leaves the tenant and does not give the address away.
abbrev Safe : ℕ → ℕ → Bytes → Option Reply × Server → Type 0
Safe t i mac (r, d) = Apart i r × IsTenant t i mac d

module _ (t i : ℕ) (mac : Bytes) (clock : t < 2 ^ 32)
    (owned : is_mac (record { mac = mac; expiry = expiry_at t }) zero_mac ≡ false) where
  abbrev tenant : Lease
  tenant = record { mac = mac; expiry = expiry_at t }

  module _ (m : Message) (other : is_mac tenant m.chaddr ≡ false) where
    -- The lease of the tenant is not open to the other client.
    closed : (l : Lease) → l ≡ tenant → ¬ Open m.chaddr l
    closed l e (inl mine) = cc (other, ap (λ k. is_mac k m.chaddr) e)
    closed l e (inr free) = cc (owned, ap (λ k. is_mac k zero_mac) e)
