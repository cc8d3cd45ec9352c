-- ===== src/Main/Lasting.antt =====
-- From power-on to the end of the main loop: what is stored lasts until someone unlocks it.
use roman_firmware.Prelude.{
  ℕ, ◌+◌, ◌%◌, ◌^◌, ◌≡◌, refl, ap, ◌∙◌, ◌⊎◌, inl, inr, subst, true, false, Option, none, some, List,
  [], ◌∷◌, All, Bytes, Bool-cases, ◌==◌,
}
use roman_firmware.Storage.{Crypto, storage_writen}
use roman_firmware.Storage.Assumptions.{CryptoLaws}
use roman_firmware.Keystore.Invariant.{IsSound}
use roman_firmware.Usb.{Network, service_traffic, usb_network_init}
use roman_firmware.Http.Board.{Board}
use roman_firmware.Http.Lifetime.{http_server_init}
use roman_firmware.Http.Unchanged.{flash_of, same_state}
use roman_firmware.Http.Locked.{Opened, Reach-Locked}
use roman_firmware.Main.{
  Machine, Answers, start_board, start_services, set_up, Round, serve_frame, usb_network_update,
  tick, stops, main_loop,
}
use roman_firmware.Main.Callbacks.{
  Makes, quiet, served, datagram, frame, restart, IsRunning, Makes-IsRunning, network-IsRunning,
  service-link,
}
use roman_firmware.Main.Rounds.{
  Starts, IsLawful, own_server, set_up-IsRunning, tick-IsRunning, frame-IsRunning, update-IsRunning,
}

abbrev pub stored : Machine → Bytes
stored m = flash_of m.server.board

-- Among these calls of the program is one by which a request that unlocks `flash` came in, and flash was
-- still as given before it.
abbrev pub CallsOpen : {c : Crypto} {m n : Machine} → Bytes → Makes c m n → Type 0
CallsOpen flash quiet = ⊥
CallsOpen flash (served calls reach) = CallsOpen flash calls ⊎ Opened flash reach
CallsOpen flash (datagram g calls) = CallsOpen flash calls
CallsOpen flash (frame allocated src calls) = CallsOpen flash calls
CallsOpen flash (restart calls) = CallsOpen flash calls

-- The same of the calls that `serve_frame` leads to, of those of a round, and of those of all rounds that
-- are run.
abbrev pub FrameOpens :
    {c : Crypto} → Bytes → (r : Round) → IsLawful c r → Option Bytes → Machine → Type 0
FrameOpens flash r lawful none m = ⊥
FrameOpens flash r lawful (some p) m =
    let (taken, m') = r.input p m in
    CallsOpen flash (lawful.inputs p m)
    ⊎ CallsOpen flash
        (lawful.renewals (record m' { network = (service_traffic taken m'.network).1 }))

abbrev pub RoundOpens : {c : Crypto} → Bytes → (r : Round) → IsLawful c r → Machine → Type 0
RoundOpens flash r lawful m =
    let m' = r.tud_task m in
    CallsOpen flash (lawful.tasks m)
    ⊎ FrameOpens flash r lawful m'.network.received_frame m'
    ⊎ CallsOpen flash (lawful.timeouts (serve_frame r m'.network.received_frame m'))

abbrev pub LoopOpens :
    (c : Crypto) → Bytes → (rounds : List Round) → All (IsLawful c) rounds → Machine → Type 0
LoopOpens c flash [] all m = ⊥
LoopOpens c flash (r ∷ rounds) (lawful, all) m =
    RoundOpens flash r lawful m
    ⊎ (stops r.key ≡ false) × LoopOpens c flash rounds all (tick r (usb_network_update r m))

tick-stored : (r : Round) (m : Machine) → stored (tick r m) ≡ stored m
unfolding tick
tick-stored r m = elim (Bool-cases ((m.stack_tick + 1) % 2 ^ 32 % 256 == 0)) [
  | inl check ↦ rw (check, tick) refl
  | inr skip ↦ rw (skip, tick) refl
]

module _ (c : Crypto) (udp : Option ℕ) (laws : CryptoLaws c) (flash : Bytes)
    (set : storage_writen flash ≡ true) where
  abbrev Runs : Machine → Type 0
  Runs = IsRunning c own_server udp

  calls-Last :
      {m n : Machine} (calls : Makes c m n)
      → Runs m
      → stored m ≡ flash
      → (stored n ≡ flash) ⊎ CallsOpen flash calls
  calls-Last quiet w same = inl same
  calls-Last (served {n = n} {s = s} calls reach) w same = elim (calls-Last calls w same) [
    | inr open_ ↦ inr (inl open_)
    | inl same' ↦
        elim (Reach-Locked c n.server s reach laws
          (Makes-IsRunning c own_server udp laws calls w).server (ap storage_writen same' ∙ set)) [
            | inl stays ↦ inl (stays ∙ same')
            | inr open_ ↦ inr (inr (subst (λ f. Opened f reach) same' open_))
          ]
  ]
  calls-Last (datagram g calls) w same = calls-Last calls w same
  calls-Last (frame buffer src calls) w same = calls-Last calls w same
  calls-Last (restart calls) w same = calls-Last calls w same

  frame-Lasts :
      (r : Round) (lawful : IsLawful c r) (waiting : Option Bytes) (m : Machine)
      → Runs m
      → stored m ≡ flash
      → (stored (serve_frame r waiting m) ≡ flash) ⊎ FrameOpens flash r lawful waiting m
  unfolding serve_frame
  frame-Lasts r lawful none m w same = inl same
  frame-Lasts r lawful (some p) m w same =
      let (taken, m') = r.input p m in
      let w' = Makes-IsRunning c own_server udp laws (lawful.inputs p m) w in
      let handed : Machine = record m' { network = (service_traffic taken m'.network).1 } in
      elim (calls-Last (lawful.inputs p m) w same) [
        | inr open_ ↦ inr (inl open_)
        | inl same' ↦
            elim (calls-Last (lawful.renewals handed)
              (network-IsRunning c own_server udp m' _ w' (service-link taken m'.network)) same') [
                | inr open_ ↦ inr (inr open_)
                | inl last ↦ inl last
              ]
      ]

  round-Lasts :
      (r : Round) (lawful : IsLawful c r) (m : Machine)
      → Runs m
      → stored m ≡ flash
      → (stored (usb_network_update r m) ≡ flash) ⊎ RoundOpens flash r lawful m
  unfolding usb_network_update
  round-Lasts r lawful m w same =
      let m' = r.tud_task m in
      let waiting = m'.network.received_frame in
      let w' = Makes-IsRunning c own_server udp laws (lawful.tasks m) w in
      elim (calls-Last (lawful.tasks m) w same) [
        | inr open_ ↦ inr (inl open_)
        | inl same' ↦ elim (frame-Lasts r lawful waiting m' w' same') [
          | inr open_ ↦ inr (inr (inl open_))
          | inl same'' ↦
              elim (calls-Last (lawful.timeouts (serve_frame r waiting m'))
                (frame-IsRunning c udp laws r waiting m' lawful w') same'') [
                  | inr open_ ↦ inr (inr (inr open_))
                  | inl last ↦ inl last
                ]
        ]
      ]

  loop-Lasts :
      (rounds : List Round) (all : All (IsLawful c) rounds) (m : Machine)
      → Runs m
      → stored m ≡ flash
      → (stored (main_loop rounds m).1 ≡ flash) ⊎ LoopOpens c flash rounds all m
  unfolding main_loop
  loop-Lasts [] all m w same = inl same
  loop-Lasts (r ∷ rounds) (lawful, all) m w same = elim (round-Lasts r lawful m w same) [
    | inr open_ ↦ inr (inl open_)
    | inl same' ↦
        let next = tick r (usb_network_update r m) in
        let w' = tick-IsRunning c udp laws r _ (update-IsRunning c udp laws r m lawful w) in
        let same'' = tick-stored r (usb_network_update r m) ∙ same' in
        elim (Bool-cases (stops r.key)) [
          | inl stop ↦ rw (stop, main_loop) (inl same'')
          | inr on ↦ elim (loop-Lasts rounds all next w' same'') [
            | inl last ↦ inl (rw (on, main_loop) last)
            | inr open_ ↦ inr (inr (on, open_))
          ]
        ]
  ]

abbrev Keeps : Board → Option Machine → Type 0
Keeps b none = Unit
Keeps b (some m) = stored m ≡ flash_of b

set_up-Keeps : (a : Answers) (b : Board) (network : Network) → Keeps b (set_up a b network)
unfolding set_up start_board start_services usb_network_init http_server_init
set_up-Keeps a b network = elim (Bool-cases a.tud_init) [
  | inr down ↦ rw (down, set_up) tt
  | inl up ↦ elim (Bool-cases a.netif_add) [
    | inr missing ↦ rw (up, missing, set_up) tt
    | inl added ↦ rw (up, added, set_up) (same_state a.env.crypto (start_board a b).keystore)
  ]
]

-- From power-on of a board whose flag is set, through a boot that succeeds and any rounds of the main
-- loop: flash is at the end as it was at power-on, or one of the callbacks that were made in these
-- rounds, before which flash was still so, received the segment that completed a POST /clear that shows
-- the stored secret key, or a POST /debug with the action clear. At power-on the cache
-- agrees with flash, the sector has 4096 bytes, and a record that can be read has its flag set; TweetNaCl
-- behaves as assumed, and what TinyUSB and lwIP do to the program in a round is to make callbacks, with flash calls that behave as assumed.
pub main-Lasts :
    (a : Answers) (b : Board) (network : Network) (m : Machine) (rounds : List Round)
    (all : All (IsLawful a.env.crypto) rounds)
    → CryptoLaws a.env.crypto
    → IsSound a.env.crypto b.keystore
    → storage_writen (flash_of b) ≡ true
    → set_up a b network ≡ some m
    → (stored (main_loop rounds m).1 ≡ flash_of b)
      ⊎ LoopOpens a.env.crypto (flash_of b) rounds all m
main-Lasts a b network m rounds all laws s set e =
    let c = a.env.crypto in
    loop-Lasts c a.udp laws (flash_of b) set rounds all m
      (subst (Starts c a.udp) e (set_up-IsRunning a b network s))
      (subst (Keeps b) e (set_up-Keeps a b network))
