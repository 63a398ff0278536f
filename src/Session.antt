-- ===== src/Session.antt =====
-- server/src/network/session.cpp: the packets that a session has to write, and its end. What the socket
-- does is a sequence of calls of the handlers below; its reads are in Framing.
pub mod Order
mod Tests
use ascii_poker.Prelude.{
  ℕ, suc, ◌≡◌, Bool, true, false, not, ◌||◌, List, [], ◌∷◌, ◌++◌, Option, none, some, length, ltb,
  if◌then◌else◌,
}
use ascii_poker.Framing.{Endian, max_packet_size, encode_packet}

pub record Session : Type 0 where
  pub closed : Bool
  pub write_in_progress : Bool
  pub disconnect_notified : Bool
  pub write_queue : List (List ℕ)
  -- The packets given to `async_write`, and the calls of `on_disconnect`.
  pub started : List (List ℕ)
  pub disconnects : ℕ

abbrev pub new_session : Session
new_session = record {
  closed = false;
  write_in_progress = false;
  disconnect_notified = false;
  write_queue = [];
  started = [];
  disconnects = 0;
}

unfoldable pub do_write : Session → Session
do_write s = if s.closed || s.write_in_progress then s else elim s.write_queue [
  | [] ↦ s
  | packet ∷ packets ↦ record s { write_in_progress = true; started = s.started ++ (packet ∷ []) }
]

-- The session's processor is never null.
unfoldable pub close_session : Session → Session
close_session s = if s.closed then s else (record s {
  closed = true;
  disconnect_notified = true;
  disconnects = if s.disconnect_notified then s.disconnects else suc s.disconnects;
})

-- The end of `send`, from the packet on; no packet is made of a message that is too large.
unfoldable pub enqueue : Option (List ℕ) → Session → Session
unfolding do_write
enqueue none s = s
enqueue (some packet) s =
    let queued = record s { write_queue = s.write_queue ++ (packet ∷ []) } in
    if s.write_in_progress then queued else do_write queued

-- The message is given as the bytes of its JSON text; one that is too large is only logged.
unfoldable pub send : Endian → List ℕ → Session → Session
unfolding enqueue encode_packet
send e body s = if s.closed then s else enqueue (encode_packet e body) s

unfoldable pub pop_front : List (List ℕ) → List (List ℕ)
pop_front [] = []
pop_front (packet ∷ packets) = packets

-- The handler that `async_write` calls at its end, with or without an error.
unfoldable pub on_written : Bool → Session → Session
unfolding do_write close_session pop_front
on_written error s =
    let ended = record s { write_in_progress = false } in
    if s.closed
    then ended
    else if error
    then close_session ended
    else do_write (record ended { write_queue = pop_front s.write_queue })

-- The packets that `send` queues.
abbrev pub packets_of : Option (List ℕ) → List (List ℕ)
packets_of none = []
packets_of (some packet) = packet ∷ []

unfoldable pub accepted : Endian → List ℕ → Session → List (List ℕ)
unfolding encode_packet
accepted e body s = if s.closed then [] else packets_of (encode_packet e body)

-- The sessions that sends, ends of writes, and closing lead to, with the packets that were queued. A
-- write ends only if one is in progress.
pub data Reachable (e : Endian) : List (List ℕ) → Session → Type 0 where
  begins : Reachable e [] new_session
  sends :
      {ps : List (List ℕ)} {s : Session}
      → Reachable e ps s
      → (body : List ℕ) → Reachable e (ps ++ accepted e body s) (send e body s)
  writes :
      {ps : List (List ℕ)} {s : Session}
      → Reachable e ps s
      → s.write_in_progress ≡ true
      → (error : Bool) → Reachable e ps (on_written error s)
  closes : {ps : List (List ℕ)} {s : Session} → Reachable e ps s → Reachable e ps (close_session s)
