-- ===== src/Usb/Frames.antt =====
-- The single frame slot between TinyUSB and lwIP.
use roman_firmware.Prelude.{
  ◌≡◌, sym, ap, ◌∙◌, Bool, Option, none, some, List, [], ◌∷◌, ◌++◌, append_assoc, Bytes,
  if◌then◌else◌, Bool-cases, Option-cases, inl, inr,
}
use roman_firmware.Base64.{is_empty}
use roman_firmware.Usb.{Network, Call, input, tud_network_recv_cb, service_traffic}

-- What happens on the link: TinyUSB delivers a frame, or the main loop comes round.
pub data Event : Type 0 where
  delivered : Bool → Bytes → Event
  serviced : Bool → Event

-- The frames that `tud_network_recv_cb` stored, and those that lwIP was given, in order.
pub record Log : Type 0 where
  pub stored : List Bytes
  pub handed : List Bytes
  pub network : Network

abbrev waiting : Option Bytes → List Bytes
waiting none = []
waiting (some p) = p ∷ []

abbrev pub pending : Network → List Bytes
pending n = waiting n.received_frame

-- The frames among the calls.
unfoldable pub inputs : List Call → List Bytes
inputs [] = []
inputs (input p ∷ calls) = p ∷ inputs calls
inputs (call ∷ calls) = inputs calls

-- A frame was stored if the slot was free, it was not empty and there was a buffer for it.
unfoldable pub stores : Bool → Bytes → Network → List Bytes
stores allocated src n = elim n.received_frame [
  | some p ↦ []
  | none ↦ if is_empty src then [] else if allocated then src ∷ [] else []
]

unfoldable pub step : Event → Log → Log
unfolding stores inputs
step (delivered allocated src) l = record l {
  stored = l.stored ++ stores allocated src l.network;
  network = (tud_network_recv_cb allocated src l.network).1;
}
step (serviced taken) l =
    let (calls, network) = service_traffic taken l.network in
    record l { handed = l.handed ++ inputs calls; network = network }

unfoldable pub run : List Event → Log → Log
unfolding step
run [] l = l
run (event ∷ events) l = run events (step event l)

-- The balance of one step.
abbrev pub Balanced : Log → Type 0
Balanced l = l.stored ≡ l.handed ++ pending l.network

pub recv_stores :
    (allocated : Bool) (src : Bytes) (n : Network)
    → pending (tud_network_recv_cb allocated src n).1 ≡ pending n ++ stores allocated src n
unfolding tud_network_recv_cb stores
recv_stores allocated src n = elim (Option-cases n.received_frame) [
  | inr (p, busy) ↦ simp (busy, tud_network_recv_cb, stores)
  | inl free ↦ elim (Bool-cases (is_empty src)) [
    | inl nothing ↦ simp (free, nothing, tud_network_recv_cb, stores)
    | inr frame ↦ elim (Bool-cases allocated) [
      | inl buffer ↦ simp (free, frame, buffer, tud_network_recv_cb, stores)
      | inr none_left ↦ simp (free, frame, none_left, tud_network_recv_cb, stores)
    ]
  ]
]

service_hands :
    (taken : Bool) (n : Network)
    → inputs (service_traffic taken n).0 ++ pending (service_traffic taken n).1 ≡ pending n
unfolding service_traffic inputs
service_hands taken n = elim (Option-cases n.received_frame) [
  | inl free ↦ simp (free, service_traffic)
  | inr (p, busy) ↦ elim (Bool-cases taken) [
    | inl kept ↦ simp (busy, kept, service_traffic)
    | inr freed ↦ simp (busy, freed, service_traffic)
  ]
]

step-Balanced : (event : Event) (l : Log) → Balanced l → Balanced (step event l)
unfolding step
step-Balanced (delivered allocated src) l h =
    rw (recv_stores allocated src l.network, h) (append_assoc l.handed (pending l.network) _)
step-Balanced (serviced taken) l h =
    h
    ∙ ap (λ t. l.handed ++ t) (sym (service_hands taken l.network))
    ∙ sym (append_assoc l.handed (inputs (service_traffic taken l.network).0) _)

-- Over any sequence of deliveries and rounds of the main loop, the frames that were stored are those
-- handed to lwIP, once each and in order, and the one that still waits; as it was so before.
pub run-Balanced : (events : List Event) (l : Log) → Balanced l → Balanced (run events l)
unfolding run
run-Balanced [] l h = h
run-Balanced (event ∷ events) l h = run-Balanced events (step event l) (step-Balanced event l h)
