-- ===== src/Dhcp/Expiry.antt =====
-- How long a lease holds, with the millisecond counter wrapping around at 2 ^ 32.
use roman_firmware.Prelude.{ℕ, ◌+◌, ◌%◌, ◌^◌, ◌≤◌, ◌<◌, ◌≡◌, true, false, arith, Bytes}
use roman_firmware.Dhcp.{Lease, expired, expiry_at}

-- A lease acknowledged at time `t` is not taken for expired within the 24 hours that the reply
-- promises, and is taken for expired from about 66 seconds later on, until the counter has gone
-- half round: whatever `t` is, also across a wrap of the counter.
pub expired-expiry_at :
    (mac : Bytes) (t elapsed : ℕ)
    → t < 2 ^ 32
    → (let l : Lease = record { mac = mac; expiry = expiry_at t } in
        let now = (t + elapsed) % 2 ^ 32 in
        (elapsed ≤ 86400000 → expired l now ≡ false)
        × (86400000 + 65536 ≤ elapsed → elapsed < 2 ^ 31 → expired l now ≡ true))
unfolding expired expiry_at
expired-expiry_at mac t elapsed h = (λ early. ground arith, λ late half. ground arith)
