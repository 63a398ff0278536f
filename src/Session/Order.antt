-- ===== src/Session/Order.antt =====
-- The order in which a session writes.
use mathlib.Core.List.{append_assoc, append-nil}
use ascii_poker.Prelude.{
  ℕ, ◌≡◌, refl, sym, ap, ◌∙◌, Bool, true, false, List, [], ◌∷◌, ◌++◌, Option, none, some, arith,
  ◌||◌, if◌then◌else◌,
}
use ascii_poker.Framing.{Endian, encode_packet}
use ascii_poker.Session.{
  Session, do_write, packets_of, enqueue, close_session, send, pop_front, on_written, accepted,
  Reachable, begins, sends, writes, closes,
}

-- What waits: nothing, or what comes after the packet that is being written.
abbrev IsPending : Bool → Bool → List (List ℕ) → List (List ℕ) → Type 0
IsPending true w queue rest = Unit
IsPending false false queue rest = (queue ≡ []) × (rest ≡ [])
IsPending false true queue rest = (packet : List ℕ) × (queue ≡ packet ∷ rest)

abbrev IsOrdered : List (List ℕ) → Session → Type 0
IsOrdered ps s =
    (rest : List (List ℕ)) × (s.started ++ rest ≡ ps)
    × IsPending s.closed s.write_in_progress s.write_queue rest
    × ((s.disconnects ≡ (if s.closed then 1 else 0)) × (s.disconnect_notified ≡ s.closed))

abbrev session : Bool → Bool → Bool → List (List ℕ) → List (List ℕ) → ℕ → Session
session c w n queue st d = record {
  closed = c;
  write_in_progress = w;
  disconnect_notified = n;
  write_queue = queue;
  started = st;
  disconnects = d;
}

close_session-IsOrdered :
    (ps : List (List ℕ)) (c w n : Bool) (queue st : List (List ℕ)) (d : ℕ)
    → IsOrdered ps (session c w n queue st d)
    → IsOrdered ps (close_session (session c w n queue st d))
unfolding close_session
close_session-IsOrdered ps true w n queue st d h = h
close_session-IsOrdered ps false w n queue st d (rest, order, pending, (once, notified)) =
    (rest, order, tt, (ground arith, refl))

enqueue-IsOrdered :
    (o : Option (List ℕ)) (ps : List (List ℕ)) (w n : Bool) (queue st : List (List ℕ)) (d : ℕ)
    → IsOrdered ps (session false w n queue st d)
    → IsOrdered (ps ++ packets_of o) (enqueue o (session false w n queue st d))
unfolding enqueue do_write
enqueue-IsOrdered none ps w n queue st d (rest, order, pending, once) =
    (rest, order ∙ sym (append-nil ps), pending, once)
enqueue-IsOrdered (some p) ps true n queue st d (rest, order, (first, pending), once) = (
  rest ++ (p ∷ []),
  sym (append_assoc st rest (p ∷ [])) ∙ ap (λ t. t ++ (p ∷ [])) order,
  (first, ap (λ t. t ++ (p ∷ [])) pending),
  once,
)
enqueue-IsOrdered (some p) ps false n [] st d (rest, order, (empty, none_left), once) = (
  [],
  append-nil (st ++ (p ∷ []))
      ∙ ap (λ t. t ++ (p ∷ [])) (sym (append-nil st) ∙ ap (λ r. st ++ r) (sym none_left) ∙ order),
  (p, refl),
  once,
)
enqueue-IsOrdered (some p) ps false n (q ∷ queue) st d (rest, order, (empty, none_left), once) =
    absurd (cc)

send-IsOrdered :
    (e : Endian) (body : List ℕ) (ps : List (List ℕ)) (c w n : Bool) (queue st : List (List ℕ))
    (d : ℕ)
    → IsOrdered ps (session c w n queue st d)
    → IsOrdered
        (ps ++ accepted e body (session c w n queue st d))
        (send e body (session c w n queue st d))
unfolding send accepted
send-IsOrdered e body ps true w n queue st d (rest, order, pending, once) =
    (rest, order ∙ sym (append-nil ps), pending, once)
send-IsOrdered e body ps false w n queue st d h =
    enqueue-IsOrdered (encode_packet e body) ps w n queue st d h

-- A write that ends without an error begins the next one.
on_written-IsOrdered :
    (ps : List (List ℕ)) (error c n : Bool) (queue st : List (List ℕ)) (d : ℕ)
    → IsOrdered ps (session c true n queue st d)
    → IsOrdered ps (on_written error (session c true n queue st d))
unfolding on_written do_write close_session pop_front
on_written-IsOrdered ps error true n queue st d h = h
on_written-IsOrdered ps true false n queue st d (rest, order, pending, once) =
    (rest, order, tt, (let (none_yet, unnoted) = once in ground arith, refl))
on_written-IsOrdered ps false false n [] st d (rest, order, (first, pending), once) = absurd (cc)
on_written-IsOrdered ps false false n (q ∷ []) st d (rest, order, (first, pending), once) =
    (rest, order, (refl, sym (ap pop_front pending)), once)
on_written-IsOrdered ps false false n (q ∷ p ∷ queue) st d (rest, order, (first, pending), once) = (
  queue,
  append_assoc st (p ∷ []) queue ∙ ap (λ t. st ++ t) (ap pop_front pending) ∙ order,
  (p, refl),
  once,
)

written_busy :
    (ps : List (List ℕ)) (error c w n : Bool) (queue st : List (List ℕ)) (d : ℕ)
    → w ≡ true
    → IsOrdered ps (session c w n queue st d)
    → IsOrdered ps (on_written error (session c w n queue st d))
written_busy ps error c true n queue st d busy h = on_written-IsOrdered ps error c n queue st d h
written_busy ps error c false n queue st d busy h = absurd (cc)

Reachable-IsOrdered :
    (e : Endian) (ps : List (List ℕ)) (s : Session) → Reachable e ps s → IsOrdered ps s
unfolding on_written
Reachable-IsOrdered e _ _ begins = ([], refl, (refl, refl), (refl, refl))
Reachable-IsOrdered e _ _ (sends {ps} {s} r body) =
    send-IsOrdered e body ps s.closed s.write_in_progress s.disconnect_notified s.write_queue
      s.started s.disconnects (Reachable-IsOrdered e ps s r)
Reachable-IsOrdered e _ _ (writes {ps} {s} r busy error) =
    written_busy ps error s.closed s.write_in_progress s.disconnect_notified s.write_queue s.started
      s.disconnects busy (Reachable-IsOrdered e ps s r)
Reachable-IsOrdered e _ _ (closes {ps} {s} r) =
    close_session-IsOrdered ps s.closed s.write_in_progress s.disconnect_notified s.write_queue
      s.started s.disconnects (Reachable-IsOrdered e ps s r)

-- Nothing is left, unless the session is closed or busy.
abbrev pub IsDrained : Bool → List (List ℕ) → Type 0
IsDrained true rest = Unit
IsDrained false rest = rest ≡ []

-- Whatever is sent and whatever the writes come to, a session has begun to write the packets that it
-- queued in their order, from the first, each once; if it is open and no write is in progress, it has
-- begun to write all of them; and it has told its processor of the end once if it is closed, and not
-- otherwise.
pub started-Reachable :
    (e : Endian) (ps : List (List ℕ)) (s : Session)
    → Reachable e ps s
    → ((rest : List (List ℕ)) × (s.started ++ rest ≡ ps)
        × IsDrained (s.closed || s.write_in_progress) rest)
      × (s.disconnects ≡ (if s.closed then 1 else 0))
started-Reachable e ps s r =
    let (rest, order, pending, once) = Reachable-IsOrdered e ps s r in
    ((rest, order, drained s.closed s.write_in_progress s.write_queue rest pending), once.0)
  where
    drained :
        (c w : Bool) (queue rest : List (List ℕ))
        → IsPending c w queue rest
        → IsDrained (c || w) rest
    drained true w queue rest h = tt
    drained false true queue rest h = tt
    drained false false queue rest h = h.1
