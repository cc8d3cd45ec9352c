-- ===== src/Dhcp/Cases.antt =====
-- The ways through `dhcp_server_process`: the datagram is ignored, it is a DHCPDISCOVER, or a
-- DHCPREQUEST for one of the eight leases.
use roman_firmware.Prelude.{
  ℕ, ◌+◌, ◌-◌, ◌%◌, ◌<◌, inl, inr, Option, none, some, take, slice, bytes_eq, get_or, ltb, leb,
  leb-false→lt, Bool-cases, ◌==◌,
}
use roman_firmware.Dhcp.{
  Server, Message, Reply, max_ip, base_ip, handle_discover, grant, request_at, handle_request,
  opt_find, dispatch, dhcp_server_process,
}

module _ {ℓ} (P : Option Reply × Server → Type ℓ) (ticks : ℕ → ℕ) (m : Message) (d : Server)
    (ignored : P (none, d)) (discovers : P (handle_discover ticks m d))
    (grants : (yi : ℕ) → yi < 8 → P (grant (ticks 0) m yi d)) where
  request-each : (o : Option ℕ) → P (request_at (ticks 0) m o d)
  unfolding request_at
  request-each none = ignored
  request-each (some o) =
      let yi = (get_or m.opt (o + 5) 0 + 256 - base_ip) % 256 in
      elim (Bool-cases (bytes_eq (slice (o + 2) 3 m.opt) (take 3 d.ip))) [
        | inr elsewhere ↦ rw (elsewhere, request_at) ignored
        | inl here ↦ elim (Bool-cases (leb max_ip yi)) [
          | inl outside ↦ rw (here, outside, request_at) ignored
          | inr inside ↦ rw (here, inside, request_at) (grants yi (leb-false→lt max_ip yi inside))
        ]
      ]

  dispatch-each : (o : Option ℕ) → P (dispatch ticks m o d)
  unfolding dispatch handle_request
  dispatch-each none = ignored
  dispatch-each (some o) = elim (Bool-cases (get_or m.opt (o + 2) 0 == 1)) [
    | inl asks ↦ rw (asks, dispatch) discovers
    | inr not_1 ↦ elim (Bool-cases (get_or m.opt (o + 2) 0 == 3)) [
      | inl wants ↦ rw (not_1, wants, dispatch) (request-each (opt_find m.opt 50))
      | inr not_3 ↦ rw (not_1, not_3, dispatch) ignored
    ]
  ]

  pub process-each : (tot_len len : ℕ) → P (dhcp_server_process ticks tot_len len m d)
  unfolding dhcp_server_process
  process-each tot_len len = elim (Bool-cases (ltb tot_len 243)) [
    | inl short ↦ rw (short, dhcp_server_process) ignored
    | inr long ↦ elim (Bool-cases (ltb len 243)) [
      | inl short ↦ rw (long, short, dhcp_server_process) ignored
      | inr whole ↦ rw (long, whole, dhcp_server_process) (dispatch-each (opt_find m.opt 53))
    ]
  ]
