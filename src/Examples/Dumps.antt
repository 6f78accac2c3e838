-- ===== src/Examples/Dumps.antt =====
-- The dumps of debug builds at concrete inputs: src/debug.c.
use libm2handler.Base.{[], ◌∷◌, Bytes}

-- `hi`
abbrev hi : Bytes
hi = b'h' ∷ b'i' ∷ []
