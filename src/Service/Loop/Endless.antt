-- ===== src/Service/Loop/Endless.antt =====
-- The loop does not end, and what a signal leaves.
use psuart.Prelude.{
  ◌^◌, ◌≡◌, refl, ap, ap₂, ◌∙◌, List, [], ◌∷◌, ◌++◌, some, Bool, false, lt→ltb, Holds-elim, ℕ, ◌<◌,
  ◌⊎◌, inl, inr, Option-cases, none,
}
use psuart.Utils.Serial.{is_open}
use psuart.Rader.Sound.{IsSound}
use psuart.Service.{Service, Effect}
use psuart.Service.Socket.{close_uart}
use psuart.Service.Socket.Laws.{
  cleared, closing, cleared-shut, close_tcp_socket_lem, close_udp_socket_lem,
}
use psuart.Service.Turn.{Answers, wait_message_and_handle}
use psuart.Service.Turn.Invariant.{IsBounded, KeepsServing, wait-KeepsServing}
use psuart.Service.Loop.{shut_down, serve}
use psuart.Service.Loop.Traffic.{serve_after}

abbrev pub AreBounded : List Answers → Type 0
AreBounded [] = Unit {0}
AreBounded (a ∷ turns) = IsBounded a × AreBounded turns

-- the loop gets through these turns and goes on, with a radar whose state is sound
abbrev pub GoesOn : Bool → List Answers → Service → Type 0
GoesOn signed turns st =
    (st' : Service) × (calls : List Effect) × (serve signed turns st ≡ some (st', calls, false))
    × IsSound st'.rader

-- the loop gets through the turns in front of one that is undefined
abbrev pub StopsAtFault : Bool → List Answers → Service → Type 0
StopsAtFault signed turns st =
    (before : List Answers) × (a : Answers) × (behind : List Answers) × (st' : Service)
    × (calls : List Effect) × (turns ≡ before ++ a ∷ behind)
    × (serve signed before st ≡ some (st', calls, false))
    × (wait_message_and_handle signed a st' ≡ none)

turn_first :
    (signed : Bool) (a : Answers) (turns : List Answers) (st : Service) {st1 : Service}
    {calls : List Effect} {ret : ℕ}
    → wait_message_and_handle signed a st ≡ some (st1, calls, ret)
    → ret < 2 ^ 31
    → GoesOn signed turns st1 ⊎ StopsAtFault signed turns st1
    → GoesOn signed (a ∷ turns) st ⊎ StopsAtFault signed (a ∷ turns) st
turn_first signed a turns st {st1} {calls} {ret} e small (inl (st', more, f, sound)) =
    inl (st', calls ++ more, serve_after signed a turns st e (lt→ltb ret (2 ^ 31) small) f, sound)
turn_first signed a turns st {st1} {calls} {ret} e small
      (inr (before, at, behind, st', more, split, f, fault)) =
    inr (
      a ∷ before,
      at,
      behind,
      st',
      calls ++ more,
      ap (a ∷◌) split,
      serve_after signed a before st e (lt→ltb ret (2 ^ 31) small) f,
      fault,
    )

-- In turns in which the reads give at most 4096 bytes, from a state in which the radar's is sound: either
-- the loop of `main` gets through them all, goes on, and the radar's state is sound; or it goes on up to
-- a turn that is undefined. No turn's result ends it, so the code behind the loop is not reached.
pub serve_endless :
    (signed : Bool) (turns : List Answers) (st : Service)
    → AreBounded turns
    → IsSound st.rader
    → GoesOn signed turns st ⊎ StopsAtFault signed turns st
unfolding serve
serve_endless signed [] st fits sound = inl (st, [], refl, sound)
serve_endless signed (a ∷ turns) st fits sound =
    elim (Option-cases (wait_message_and_handle signed a st)) [
      | inl fault ↦ inr ([], a, turns, st, [], refl, refl, fault)
      | inr ((st1, calls, ret), e) ↦
          let (kept, small) =
            Holds-elim KeepsServing (wait-KeepsServing signed a st fits.0 sound) e in
          turn_first signed a turns st e small (serve_endless signed turns st1 fits.1 kept)
    ]

-- the state that a signal leaves, and the calls that it makes
abbrev pub shut : Service → Service
shut st = record st { uart_fd = 0; udp_fd = cleared st.udp_fd; tcp_fd = cleared st.tcp_fd }

abbrev pub closes_of : Service → List Effect
closes_of st = closing st.uart_fd ++ (closing st.udp_fd ++ closing st.tcp_fd)

shut_down_steps : (st : Service) → shut_down st ≡ (shut st, closes_of st)
unfolding shut_down close_uart
shut_down_steps st = rw (
  shut_down,
  close_udp_socket_lem (close_uart st).0,
  close_tcp_socket_lem (record st { uart_fd = 0; udp_fd = cleared st.udp_fd }),
)

closing-cleared : (fd : ℕ) → closing (cleared fd) ≡ []
closing-cleared fd = rw (closing, cleared-shut fd)

closes_of-shut : (st : Service) → closes_of (shut st) ≡ []
closes_of-shut st =
    ap₂ (λ (a b : List Effect). [] ++ (a ++ b)) (closing-cleared st.udp_fd)
      (closing-cleared st.tcp_fd)

-- A signal closes each descriptor that is open, once, in the order UART, UDP and TCP, leaves none
-- open and changes nothing else; a second one closes nothing.
pub shut_down_lem :
    (st : Service)
    → (shut_down st ≡ (shut st, closes_of st))
      × (is_open (shut st).uart_fd ≡ false)
      × (is_open (shut st).udp_fd ≡ false)
      × (is_open (shut st).tcp_fd ≡ false)
      × ((shut_down (shut st)).1 ≡ [])
shut_down_lem st = (
  shut_down_steps st,
  refl,
  cleared-shut st.udp_fd,
  cleared-shut st.tcp_fd,
  ap (λ (out : Service × List Effect). out.1) (shut_down_steps (shut st)) ∙ closes_of-shut st,
)
