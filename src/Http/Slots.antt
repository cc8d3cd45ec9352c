-- ===== src/Http/Slots.antt =====
-- Which connections are accepted.
use roman_firmware.Prelude.{
  ℕ, suc, ◌+◌, ◌<◌, ◌≡◌, ◌≢◌, refl, ap, ◌∙◌, ◌⊎◌, inl, inr, Bool, true, false, Option, none, some,
  List, [], ◌∷◌, arith, length, get_or, set, get_or-set_self, get_or-set_ne,
}
use roman_firmware.Http.Board.{Env}
use roman_firmware.Http.Response.{Call, tcp_close, Conn}
use roman_firmware.Http.Connection.{
  Err, err_ok, err_mem, Server, entry, in_use, first_free, fresh, accept_slot, http_accept_cb,
}

-- A free slot is found exactly where one is left: the first one.
first_free_lem :
    (states : List (Option Conn))
    → (first_free states ≡ none) × (in_use states ≡ length states)
      ⊎ ((i : ℕ) × (first_free states ≡ some i)
          × (i < length states)
          × (get_or states i none ≡ none)
          × ((st : Conn) → in_use (set states i (some st)) ≡ in_use states + 1))
unfolding first_free in_use
first_free_lem [] = inl (refl, refl)
first_free_lem (none ∷ states) = inr (0, refl, omega arith, refl, λ st. omega arith)
first_free_lem (some st ∷ states) = elim (first_free_lem states) [
  | inl (full, all) ↦ inl (rw full refl, ap suc all)
  | inr (i, found, inside, free, more) ↦ inr (
    suc i,
    rw found (ap some {x = i + 1} {y = suc i} (omega arith)),
    omega arith,
    free,
    λ st'. omega (arith, more st'),
  )
]

-- What an accepted or refused connection does to the table.
abbrev pub Outcome : ℕ → Bool → Server → Err × (List Call × Server) → Type 0
Outcome pcb allocated s (err, (calls, s')) =
    ((allocated ≡ false) ⊎ (in_use s.http_states ≡ 3))
      × (err ≡ err_mem)
      × (calls ≡ tcp_close pcb ∷ [])
      × (s' ≡ s)
    ⊎ (allocated ≡ true)
      × ((i : ℕ) × (i < 3)
          × (entry i s ≡ none)
          × (err ≡ err_ok)
          × (calls ≡ [])
          × (entry i s' ≡ some (fresh pcb))
          × ((j : ℕ) → i ≢ j → entry j s' ≡ entry j s)
          × (in_use s'.http_states ≡ in_use s.http_states + 1))

-- A new connection is refused, and closed, exactly when its state could not be allocated or all three
-- entries are in use. Otherwise it takes a free entry, with an empty request, and the others stay as
-- they are. The table has its three entries.
pub accept-Outcome :
    (e : Env) (allocated : Bool) (pcb : ℕ) (s : Server)
    → length s.http_states ≡ 3
    → Outcome pcb allocated s (http_accept_cb e allocated (some pcb) s)
unfolding http_accept_cb accept_slot
accept-Outcome e false pcb s size = inl (inl refl, refl, refl, refl)
accept-Outcome e true pcb s size = elim (first_free_lem s.http_states) [
  | inl (full, all) ↦ rw full (inl (inr (all ∙ size), refl, refl, refl))
  | inr (i, found, inside, free, more) ↦ rw found (
      inr (
        refl,
        (
          i,
          omega arith,
          free,
          refl,
          refl,
          get_or-set_self s.http_states i (some (fresh pcb)) none inside,
          λ j ne. get_or-set_ne s.http_states i j (some (fresh pcb)) none ne,
          more (fresh pcb),
        ),
      ))
]
