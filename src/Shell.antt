-- ===== src/Shell.antt =====
-- shell/lexan.c: the lexical analyser of the shell.
pub mod Lexan
pub mod Loops
pub mod Tokens
pub mod Bounds
mod Tests
