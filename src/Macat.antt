-- ===== src/Macat.antt =====
-- macat/macat.go: the command line tool, with what it writes (Output), its settings (Settings), what
-- `main` does with them (Plan, and Verified on TLS), and its loops (Loops).
pub mod Output
pub mod Settings
pub mod Plan
pub mod Verified
pub mod Loops
pub mod Topics
