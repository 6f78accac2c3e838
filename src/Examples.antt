-- ===== src/Examples.antt =====
-- The theorems at concrete inputs, and the concrete strings, scanner and table that these use.
mod Strings
mod Printing
mod Format
mod Table
mod Frames
mod Requests
mod Sessions
mod Threads
mod Sockets
mod Queue
mod Answers
mod Clients
mod Hubs
mod Runs
mod Dumps
