-- ===== src/Minitalk.antt =====
-- minitalk/: the chat server and the line reader that it shares with the client.
pub mod Reading
pub mod Server
pub mod Menu
pub mod Sound
pub mod Tests
