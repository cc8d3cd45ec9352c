-- ===== src/Http/Routing/Cases.antt =====
-- What holds of the answer of each handler holds of the answer that is routed to.
use roman_firmware.Prelude.{ℕ, ◌≡◌, Bytes, codes, bytes_eq, bytes_eq→eq, Bool-cases, inl, inr}
use roman_firmware.CString.{ℤ}
use roman_firmware.Http.Board.{Board, Env, count_up}
use roman_firmware.Http.Response.{Reply}
use roman_firmware.Http.Sign.{handle_sign_post}
use roman_firmware.Http.Provisioning.{handle_write_post, handle_clear_post}
use roman_firmware.Http.Debug.{handle_info, handle_debug}
use roman_firmware.Http.Routing.{http_send_404, handle_get, handle_post, dispatch}

-- The board with the request counted.
abbrev pub counted : Board → Board
counted b = record b { stats = record (b.stats) { requests = count_up b.stats.requests } }

module _ (e : Env) (P : Reply × Board → Type 0) where
  pub handle_get-each :
      (path : Bytes) (b : Board)
      → ((r : Reply) → P (r, b))
      → P (handle_info e b)
      → P (http_send_404 b)
      → P (handle_get e path b)
  unfolding handle_get
  handle_get-each path b plain info missing = elim (Bool-cases (bytes_eq path (codes "/"))) [
    | inl index ↦ rw (index, handle_get) (plain _)
    | inr p1 ↦ elim (Bool-cases (bytes_eq path (codes "/health"))) [
      | inl health ↦ rw (p1, health, handle_get) (plain _)
      | inr p2 ↦ elim (Bool-cases (bytes_eq path (codes "/info"))) [
        | inl at_info ↦ rw (p1, p2, at_info, handle_get) info
        | inr p3 ↦ elim (Bool-cases (bytes_eq path (codes "/sign"))) [
          | inl sign ↦ rw (p1, p2, p3, sign, handle_get) (plain _)
          | inr p4 ↦ rw (p1, p2, p3, p4, handle_get) missing
        ]
      ]
    ]
  ]

  pub handle_post-each :
      (conns : ℕ) (path body : Bytes) (n : ℤ) (b : Board)
      → (path ≡ codes "/sign" → P (handle_sign_post e body b))
      → (path ≡ codes "/write" → P (handle_write_post e body n b))
      → (path ≡ codes "/clear" → P (handle_clear_post e body n b))
      → (path ≡ codes "/debug" → P (handle_debug e conns body n b))
      → P (http_send_404 b)
      → P (handle_post e conns path body n b)
  unfolding handle_post
  handle_post-each conns path body n b sign write clear debug missing =
      elim (Bool-cases (bytes_eq path (codes "/sign"))) [
        | inl at ↦ rw (at, handle_post) (sign (bytes_eq→eq path _ at))
        | inr p1 ↦ elim (Bool-cases (bytes_eq path (codes "/write"))) [
          | inl at ↦ rw (p1, at, handle_post) (write (bytes_eq→eq path _ at))
          | inr p2 ↦ elim (Bool-cases (bytes_eq path (codes "/clear"))) [
            | inl at ↦ rw (p1, p2, at, handle_post) (clear (bytes_eq→eq path _ at))
            | inr p3 ↦ elim (Bool-cases (bytes_eq path (codes "/debug"))) [
              | inl at ↦ rw (p1, p2, p3, at, handle_post) (debug (bytes_eq→eq path _ at))
              | inr p4 ↦ rw (p1, p2, p3, p4, handle_post) missing
            ]
          ]
        ]
      ]

  pub dispatch-each :
      (conns : ℕ) (method path body : Bytes) (n : ℤ) (b : Board)
      → ((r : Reply) → P (r, counted b))
      → P (handle_get e path (counted b))
      → (method ≡ codes "POST" → P (handle_post e conns path body n (counted b)))
      → P (http_send_404 (counted b))
      → P (dispatch e conns method path body n b)
  unfolding dispatch
  dispatch-each conns method path body n b plain get post missing =
      elim (Bool-cases (bytes_eq method (codes "OPTIONS"))) [
        | inl options ↦ rw (options, dispatch) (plain _)
        | inr m1 ↦ elim (Bool-cases (bytes_eq method (codes "GET"))) [
          | inl at ↦ rw (m1, at, dispatch) get
          | inr m2 ↦ elim (Bool-cases (bytes_eq method (codes "POST"))) [
            | inl at ↦ rw (m1, m2, at, dispatch) (post (bytes_eq→eq method _ at))
            | inr m3 ↦ rw (m1, m2, m3, dispatch) missing
          ]
        ]
      ]
