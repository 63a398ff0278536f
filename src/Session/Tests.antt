-- ===== src/Session/Tests.antt =====
-- A session that sends two messages and then fails.
use ascii_poker.Prelude.{◌||◌, ℕ, ◌≡◌, refl, true, false, List, [], ◌∷◌, ◌++◌}
use ascii_poker.Framing.{little}
use ascii_poker.Session.{Session, send, on_written, accepted, Reachable, begins, sends, writes}
use ascii_poker.Session.Order.{IsDrained, started-Reachable}

abbrev hi : List ℕ
hi = b'h' ∷ b'i' ∷ []

abbrev no : List ℕ
no = b'n' ∷ b'o' ∷ []

abbrev hi_packet : List ℕ
hi_packet = 0 ∷ 0 ∷ 0 ∷ 2 ∷ b'h' ∷ b'i' ∷ []

abbrev no_packet : List ℕ
no_packet = 0 ∷ 0 ∷ 0 ∷ 2 ∷ b'n' ∷ b'o' ∷ []

-- The second packet has begun when the write of the first has ended, and its own write fails.
abbrev failed : Session
failed = record {
  closed = true;
  write_in_progress = false;
  disconnect_notified = true;
  write_queue = no_packet ∷ [];
  started = hi_packet ∷ no_packet ∷ [];
  disconnects = 1;
}

failed-Reachable : Reachable little (hi_packet ∷ no_packet ∷ []) failed
unfolding send on_written accepted
failed-Reachable = writes (writes (sends (sends begins hi) no) refl false) refl true

started-Reachable_example :
    ((rest : List (List ℕ)) × (failed.started ++ rest ≡ hi_packet ∷ no_packet ∷ [])
      × IsDrained (failed.closed || failed.write_in_progress) rest)
    × (failed.disconnects ≡ 1)
started-Reachable_example =
    started-Reachable little (hi_packet ∷ no_packet ∷ []) failed failed-Reachable
