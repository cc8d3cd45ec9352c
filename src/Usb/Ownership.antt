-- ===== src/Usb/Ownership.antt =====
-- Who owns a received frame: each buffer is given up once, to lwIP or to pbuf_free.
use roman_firmware.Prelude.{
  ◌≡◌, sym, ap, ◌∙◌, Bool, true, false, List, [], ◌∷◌, ◌++◌, append_assoc, Bytes, if◌then◌else◌,
  Bool-cases, Option-cases, inl, inr, All, Option, none, some, refl,
}
use roman_firmware.Usb.{
  Network, Call, input, pbuf_free, tud_network_xmit, tud_network_recv_renew, tud_network_init_cb,
  tud_network_recv_cb, service_traffic,
}
use roman_firmware.Usb.Frames.{pending, stores, recv_stores}

-- What TinyUSB calls: a frame comes in, or the link is started again.
pub data Callback : Type 0 where
  delivered : Bool → Bytes → Callback
  restarted : Callback

-- What happens on the link: TinyUSB calls, or the main loop comes round. netif.input can send, and
-- TinyUSB then calls while the frame is with lwIP.
pub data Event : Type 0 where
  called : Callback → Event
  serviced : Bool → List Callback → Event

-- The buffers that the calls give up: those that lwIP takes, and those that are freed.
unfoldable pub given_up : Bool → List Call → List Bytes
given_up taken [] = []
given_up taken (input p ∷ calls) =
    let rest = given_up taken calls in if taken then p ∷ rest else rest
given_up taken (pbuf_free p ∷ calls) = p ∷ given_up taken calls
given_up taken (tud_network_xmit p ∷ calls) = given_up taken calls
given_up taken (tud_network_recv_renew ∷ calls) = given_up taken calls

-- The frames that got a buffer, and those whose buffer was given up, in order.
pub record Log : Type 0 where
  pub allocated : List Bytes
  pub released : List Bytes
  pub network : Network

unfoldable pub call : Callback → Log → Log
unfolding stores given_up
call (delivered buffer src) l = record l {
  allocated = l.allocated ++ stores buffer src l.network;
  network = (tud_network_recv_cb buffer src l.network).1;
}
call restarted l =
    let (calls, network) = tud_network_init_cb l.network in
    record l { released = l.released ++ given_up false calls; network = network }

unfoldable pub calls : List Callback → Log → Log
unfolding call
calls [] l = l
calls (callback ∷ rest) l = calls rest (call callback l)

-- A round with the frame that was read at its start, and what TinyUSB calls from within netif.input:
-- lwIP has the frame of the start, and pbuf_free gets what is in the slot when netif.input returns.
unfoldable pub service : Bool → List Callback → Option Bytes → Log → Log
unfolding calls given_up
service taken inside none l = l
service taken inside (some p) l =
    let l' = calls inside l in
    let n = if taken then l.network else l'.network in
    record l' {
      released = l'.released ++ given_up taken (service_traffic taken n).0;
      network = (service_traffic taken l'.network).1;
    }

unfoldable pub step : Event → Log → Log
unfolding call service
step (called callback) l = call callback l
step (serviced taken inside) l = service taken inside l.network.received_frame l

unfoldable pub run : List Event → Log → Log
unfolding step
run [] l = l
run (event ∷ events) l = run events (step event l)

abbrev pub Owned : Log → Type 0
Owned l = l.allocated ≡ l.released ++ pending l.network

-- A slot that is emptied, and the buffer that was in it from the start of the round on.
service_gives :
    (taken : Bool) (n n' : Network) (p : Bytes)
    → n.received_frame ≡ some p
    → n'.received_frame ≡ some p
    → given_up taken (service_traffic taken n).0 ++ pending (service_traffic taken n').1
      ≡ pending n'
unfolding service_traffic given_up
service_gives taken n n' p busy still = elim (Bool-cases taken) [
  | inl kept ↦ simp (busy, still, kept, service_traffic, given_up)
  | inr refused ↦ simp (busy, still, refused, service_traffic, given_up)
]

restart_gives :
    (n : Network)
    → given_up false (tud_network_init_cb n).0 ++ pending (tud_network_init_cb n).1 ≡ pending n
unfolding tud_network_init_cb given_up
restart_gives n = elim (Option-cases n.received_frame) [
  | inl free ↦ simp (free, tud_network_init_cb)
  | inr (p, busy) ↦ simp (busy, tud_network_init_cb, given_up)
]

-- The balance after buffers were given up.
after_release :
    (l : Log) (gone left : List Bytes)
    → Owned l
    → gone ++ left ≡ pending l.network
    → l.allocated ≡ (l.released ++ gone) ++ left
after_release l gone left h e =
    h ∙ ap (λ t. l.released ++ t) (sym e) ∙ sym (append_assoc l.released gone left)

call-Owned : (callback : Callback) (l : Log) → Owned l → Owned (call callback l)
unfolding call
call-Owned (delivered buffer src) l h =
    rw (recv_stores buffer src l.network, h) (append_assoc l.released (pending l.network) _)
call-Owned restarted l h = after_release l _ _ h (restart_gives l.network)

-- TinyUSB's call is not a restart of the link; and none of those made from within netif.input is.
abbrev pub IsDelivery : Callback → Type 0
IsDelivery (delivered buffer src) = Unit
IsDelivery restarted = ⊥

abbrev pub IsCalm : Event → Type 0
IsCalm (called callback) = Unit
IsCalm (serviced taken inside) = All IsDelivery inside

-- A frame that comes in on an occupied slot is not stored.
calls-Owned :
    (inside : List Callback) (p : Bytes) (l : Log)
    → All IsDelivery inside
    → l.network.received_frame ≡ some p
    → Owned l
    → Owned (calls inside l) × ((calls inside l).network.received_frame ≡ some p)
unfolding calls
calls-Owned [] p l deliveries busy h = (h, busy)
calls-Owned (restarted ∷ rest) p l (delivery, deliveries) busy h = absurd delivery
calls-Owned (delivered buffer src ∷ rest) p l (delivery, deliveries) busy h =
    calls-Owned rest p (call (delivered buffer src) l) deliveries (still buffer src l busy)
      (call-Owned (delivered buffer src) l h)
  where
    still :
        (buffer : Bool) (src : Bytes) (l : Log)
        → l.network.received_frame ≡ some p
        → (call (delivered buffer src) l).network.received_frame ≡ some p
    still buffer src l busy =
        unfold call in unfold tud_network_recv_cb in rw (busy, tud_network_recv_cb) busy

service-Owned :
    (taken : Bool) (inside : List Callback) (waiting : Option Bytes) (l : Log)
    → All IsDelivery inside
    → l.network.received_frame ≡ waiting
    → Owned l
    → Owned (service taken inside waiting l)
unfolding service
service-Owned taken inside none l deliveries at h = h
service-Owned true inside (some p) l deliveries busy h =
    let (owned, still) = calls-Owned inside p l deliveries busy h in
    after_release (calls inside l) _ _ owned (service_gives true l.network _ p busy still)
service-Owned false inside (some p) l deliveries busy h =
    let (owned, still) = calls-Owned inside p l deliveries busy h in
    let n = (calls inside l).network in
    after_release (calls inside l) _ _ owned (service_gives false n n p still still)

-- Over any sequence of deliveries, rounds of the main loop and restarts of the link, with deliveries but
-- no restart of the link from within netif.input: the buffers that were allocated are those given up, to
-- lwIP or to pbuf_free, once each and in order, and the one that still holds a frame; as it was so
-- before.
pub run-Owned : (events : List Event) (l : Log) → All IsCalm events → Owned l → Owned (run events l)
unfolding run step
run-Owned [] l calm h = h
run-Owned (called callback ∷ events) l (_, calm) h =
    run-Owned events (call callback l) calm (call-Owned callback l h)
run-Owned (serviced taken inside ∷ events) l (deliveries, calm) h =
    run-Owned events _ calm
      (service-Owned taken inside l.network.received_frame l deliveries refl h)
