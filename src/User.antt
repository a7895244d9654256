-- ===== src/User.antt =====
-- The user programs and their library of user/: Grep has user/grep.c, Numbers numbers as text.
pub mod Grep
pub mod Numbers
mod Tests
