-- ===== src/GameSession.antt =====
-- server/include/game/game_session.h and server/src/game/game_session.cpp: one table's hands of
-- Texas hold'em. The operations come first, then what is proved of them.
pub mod State
pub mod Seats
pub mod Chips
pub mod Notify
pub mod Award
pub mod Phases
pub mod Moves
pub mod Table
pub mod Betting
pub mod Outcomes
pub mod Seated
pub mod Payment
pub mod Winners
pub mod Pots
pub mod Sound
pub mod NewHand
pub mod Opening
pub mod Calls
pub mod Hand
pub mod Turns
pub mod Removal
pub mod Leaving
pub mod Turn
pub mod Course
pub mod Ending
pub mod Departure
pub mod Waiting
pub mod Announced
pub mod Raises
pub mod Setup
pub mod Samples
mod Tests
