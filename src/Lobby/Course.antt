-- ===== src/Lobby/Course.antt =====
-- The life of the lobby of a server: messages and disconnections of connections, one after another.
use Prim.Native.String.{String}
use ascii_poker.Prelude.{
  ℕ, ◌+◌, ◌^◌, ◌<◌, refl, Bool, List, [], ◌∷◌, Option, none, some, length, All, arith,
}
use ascii_poker.Card.{Card}
use ascii_poker.Deck.{IsShuffle}
use ascii_poker.Protocol.{ClientMessage}
use ascii_poker.GameSession.State.{Outcome, returns, ◌>>=◌}
use ascii_poker.GameSession.Outcomes.{NeverThrows, NeverThrows->>=, NeverThrows-weaken}
use ascii_poker.Lobby.{Lobby, new_lobby, room_of}
use ascii_poker.Lobby.Invariant.{IsLobby}
use ascii_poker.Lobby.Leave.{IsOut, leave_room-IsOut}
use ascii_poker.Lobby.Enter.{Moderate}
use ascii_poker.Lobby.Processor.{process_client_message, on_disconnect}
use ascii_poker.Lobby.Served.{IsServed, IsModest, process_client_message-IsServed}

-- A message, or no message when the connection is lost, and the accounts at that time.
pub record Request : Type 0 where
  pub find : String → Option ℕ
  pub connection : ℕ
  pub message : Option ClientMessage

module _ (name_of : ℕ → String) (shuffle : ℕ → List Card → List Card) (fuel : ℕ) where
  -- What the server does with one request.
  unfoldable pub serve_one : Request → Lobby → Outcome Lobby
  unfolding process_client_message on_disconnect
  serve_one r l = elim r.message [
    | none ↦ on_disconnect name_of r.find shuffle fuel r.connection l
    | some msg ↦ process_client_message name_of r.find shuffle fuel r.connection msg l
  ]

  unfoldable pub serve : List Request → Lobby → Outcome Lobby
  unfolding serve_one
  serve [] l = returns l
  serve (r ∷ rs) l = serve_one r l >>= λ l'. serve rs l'

-- What is asked of a request: no account of more than 2^27 chips, no room for more than 23 players.
abbrev pub IsModestRequest : (ℕ → String) → Request → Type 0
IsModestRequest name_of r =
    Moderate name_of r.find
    × elim r.message as (λ _. Type 0) [ none ↦ Unit | some msg ↦ IsModest msg ]

-- A new lobby has the invariant.
pub new_lobby-IsLobby :
    (has_repository : Bool) (connection_registry : Option (List ℕ)) (seed : ℕ)
    → IsLobby (new_lobby has_repository connection_registry seed)
unfolding room_of
new_lobby-IsLobby has_repository connection_registry seed = record {
  distinct = tt;
  fresh = λ id le. refl;
  sound = λ id. tt;
  routed = λ c id. ((λ e. absurd (ground arith)), absurd);
}

module _ (name_of : ℕ → String) (shuffle : ℕ → List Card → List Card) (perm : IsShuffle shuffle)
    (fuel : ℕ) where
  serve_one-IsServed :
      (find : String → Option ℕ) (c : ℕ) (message : Option ClientMessage) (l : Lobby)
      → IsModestRequest name_of (record { find = find; connection = c; message = message })
      → l.next_room_id + 1 < 2 ^ 64
      → IsLobby l
      → NeverThrows (IsServed l) (
          serve_one name_of shuffle fuel
            (record { find = find; connection = c; message = message })
            l)
  unfolding serve_one on_disconnect
  serve_one-IsServed find c none l modest numbers h =
      NeverThrows-weaken (IsOut c l) (IsServed l) _ (λ l' k. (k.0, omega (arith, k.2)))
        (leave_room-IsOut name_of find shuffle perm fuel c l h)
  serve_one-IsServed find c (some msg) l modest numbers h =
      process_client_message-IsServed name_of find shuffle perm fuel modest.0 c msg l modest.1
        numbers h

  -- With a shuffle that permutes the cards: any messages and disconnections of any connections, in any
  -- order, in which accounts have at most 2^27 chips and no room is asked for more than 23 players,
  -- throw nothing from a lobby with the invariant which has a number for each of them, whatever the
  -- fuel; and when the calls return, the lobby has the invariant.
  pub serve-IsLobby :
      (rs : List Request) (l : Lobby)
      → All (IsModestRequest name_of) rs
      → l.next_room_id + length rs < 2 ^ 64
      → IsLobby l
      → NeverThrows IsLobby (serve name_of shuffle fuel rs l)
  unfolding serve
  serve-IsLobby [] l modest numbers h = h
  serve-IsLobby (r ∷ rs) l modest numbers h =
      NeverThrows->>= (IsServed l) IsLobby (serve_one name_of shuffle fuel r l) _
        (serve_one-IsServed r.find r.connection r.message l modest.0 (omega arith) h)
        (λ l' k. serve-IsLobby rs l' modest.1 (omega (arith, k.1)) k.0)
