-- ===== src/Tetris.antt =====
-- The Tetris application: HtcLeoPkg/Application/TetrisApp.
pub mod Piece
pub mod Board
pub mod Lines
pub mod Moves
pub mod Core
pub mod Screen
