-- ===== src/Daemon.antt =====
-- src/daemon.c: what a handler calls to detach from its terminal.
use libm2handler.Base.{ℤ, pos}
use libm2handler.Extern.{Bstring}

-- No file is written.
abbrev pub pid_file : Bstring → ℤ
pid_file path = pos 0

-- `daemon` is the function of the C library: it keeps the root directory as the working one if its
-- first argument is not 0, and the standard streams if its second is not.
abbrev pub daemonize : (ℤ → ℤ → ℤ) → ℤ
daemonize daemon = daemon (pos 0) (pos 1)
