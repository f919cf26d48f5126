-- ===== src/Lsh/Tests.antt =====
-- The theorems on the shell at inputs like those of its users.
mod Words
mod Jobs
mod Kernel
mod Pipes
