-- ===== src/Lib.antt =====
-- ascii-poker: multiplayer Texas hold'em, a server and a terminal client over JSON messages.
--
-- The parts of the program that are modelled, and the files that model them:
--   * SidePots (common/src/side_pots.cpp) splits the chips of a hand into a main pot and side pots.
--     SidePots.antt has the loop and its helpers; Layers, Conservation, Eligible and Winnable below it
--     have what is proved of a round, of the sums, of eligibility, and of what one player can win.
--   * Card and Deck (common/include/poker/card.h, common/src/deck.cpp): the 52 cards, and dealing from
--     the back of the vector. `std::shuffle` is a parameter, with the promise `IsShuffle`.
--   * HandEvaluator (common/src/hand_evaluator.cpp): the value of five cards, and the best five of up
--     to seven. Best.antt has the combinations, Order.antt the order of values.
--   * Protocol (common/include/poker/protocol.h, common/src/protocol.cpp): the messages and
--     their JSON form. The JSON library is the parameter `JsonLibrary`, operations and laws. Words has
--     cards, actions and phases; Client, Rooms, Table and Server the messages; Fits says which numbers
--     fit their types. RoundTrip, Accepted and CardText are named for what they prove.
--   * Auth (common/src/auth.cpp): which names and passwords are accepted. The character classes of the C
--     library are a parameter.
--   * Framing (common/src/packet_framing.cpp, and the reads of server/src/network/session.cpp): packets
--     of bytes, for a host of either byte order.
--   * GameSession (server/src/game/game_session.cpp): one table. State.antt has the members of the
--     class as a record; a C++ member function is the function of the same name from a session to an
--     Outcome: the new session, an `std::out_of_range` that leaves the call, or no fuel. Seats, Chips,
--     Notify, Award, Phases, Moves and Setup have the operations, in the order in which they build on
--     each other. A player or a connection is a number. Messages and writes to the repository are
--     appended to the member `effects`. The other files below GameSession are named for what they prove.
--   * Room (server/src/game/room.cpp): the members of a room and the session that they start. Room.antt
--     has the operations; Bankrolls, Members, Play, Raises and Roster below it are named for
--     what they prove. What `UserRepository::find_by_username` answers is a parameter.
--   * Lobby (server/src/game/lobby.cpp, network/connection_registry.cpp): the rooms, and the map from
--     connections to rooms. Lobby.antt has the operations; Lookup, Invariant, Departed, Leave, Enter,
--     Join, Create, Start and Served are named for the parts that they prove things of. Processor
--     (server/src/messaging/lobby_message_processor.cpp) has what a message of a connection does; Course
--     puts messages and disconnections one after another.
--   * Session (server/src/network/session.cpp): what a session has to write and its end. Session.antt has
--     the handlers and the sequences of their calls.
--   * ClientView (client/src/client_view_state.cpp): what the client shows. ClientView.antt has the state,
--     Messages what a message of the server changes, Screens the inputs one after another.
--
-- The lobby makes rooms and hands them their members, actions and departures. A room makes a session,
-- hands it the actions, and takes members out of it. The session asks SidePots for the pots,
-- HandEvaluator for the winners, and Deck for the cards, and sends the messages of Protocol.
--
-- Loops run on fuel in two places. `pots_loop` has a round for each eligible player and one more,
-- since each round drops a player. `ask_current_player` is the one function that all calls in a cycle
-- go through; from one phase to the next it takes at most two rounds, so that eight are enough for a
-- hand. A hand in which nobody can act any more is played out and the next one begins within the same
-- call, so that no fuel is enough for all shuffles: the results say how far a given fuel goes.
-- `evaluate_best` has `n ^ 5` rounds for the combinations of five out of `n`.
--
-- Numbers are native naturals. Sums of uint32_t are written with `u32`, differences with `sub32`, so
-- that they wrap as in C++. `IsSound` is the invariant of a session: players sit once, all chips of the
-- table fit a uint32_t, the pot holds what its players have put in, every player has a stack, a bet
-- and a hand, there are at most 23 players, the indices are of the table, and the deck has the cards
-- that the hand still needs. `SoundWithin n` adds that the table has at most `n` chips. `IsRoom` and
-- `IsLobby` are the invariants of a room and of the lobby; a table of accounts with at most 2^27 chips each fits a
-- uint32_t.
--
-- Not modelled: logins, the sockets, storage, and of the client all but its view state. Logging
-- is left out. With more than 23 players a deck does not have the cards for all hands and the board,
-- and with more than 26 `start` throws.
pub mod Prelude
pub mod SidePots
pub mod Card
pub mod Deck
pub mod HandEvaluator
pub mod Protocol
pub mod Auth
pub mod Framing
pub mod Session
pub mod GameSession
pub mod Room
pub mod Lobby
pub mod ClientView
