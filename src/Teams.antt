-- ===== src/Teams.antt =====
-- Agent teams (teams/*.py): the board of tasks that a team shares.
pub mod TaskGraph
pub mod Board
