-- ===== src/Debug.antt =====
-- `mongrel2_debug_bstring`: src/debug.c, lines 11 to 65. The two dumps that it prints are its
-- result; `none` where it prints none.
use libm2handler.Base.{
  ℕ, ◌+◌, ◌-◌, ◌/◌, ◌%◌, ◌<◌, ◌≡◌, ◌≢◌, refl, [], ◌∷◌, ◌++◌, append-nil, append_assoc, map, arith,
  Bool, ltb, ◌==◌, ne→==, if◌then◌else◌, Option, none, some, Bytes, IsBytes,
}
use libm2handler.Extern.{Bstring, Bstrlib, IsLawful, c_string}

abbrev hex_digit : ℕ → ℕ
hex_digit d = if ltb d 10 then b'0' + d else b'A' + (d - 10)

-- `snprintf(buf,4,"%02X ",c)` for a byte.
abbrev pub hex_text : ℕ → Bytes
hex_text c = hex_digit (c / 16) ∷ hex_digit (c % 16) ∷ b' ' ∷ []

unfoldable pub sanitized : ℕ → ℕ
sanitized c = if c == 0x00 then b'@' else if c == 0xFF then b'@' else c

module _ (B : Bstrlib) where
  -- The loop, with the bytes left, `hex_dump` and `san_dump`.
  unfoldable pub dump_loop : Bytes → Bstring → Bstring → Bstring × Bstring
  dump_loop [] hex_dump san_dump = (hex_dump, san_dump)
  dump_loop (c ∷ cs) hex_dump san_dump =
      let hex_dump' = (B.bconcat hex_dump (B.bfromcstr (some (hex_text c)))).1 in
      let san_dump' = (B.bconcat san_dump (B.bfromcstr (some (sanitized c ∷ [])))).1 in
      dump_loop cs hex_dump' san_dump'

  -- `can_alloc` is whether the conversion buffer is given.
  unfoldable pub debug_bstring : Bool → Bstring → Option (Bstring × Bstring)
  unfolding dump_loop
  debug_bstring can_alloc none = none
  debug_bstring can_alloc (some raw) =
      if can_alloc
      then some (dump_loop raw (B.bfromcstr (some [])) (B.bfromcstr (some [])))
      else none

-- Three characters for each byte.
unfoldable pub hex_of : Bytes → Bytes
hex_of [] = []
hex_of (c ∷ cs) = hex_text c ++ hex_of cs

c_string-hex_text : (c : ℕ) → c < 256 → c_string (hex_text c) ≡ hex_text c
unfolding c_string
c_string-hex_text c h = rw (
  ne→== (hex_digit (c / 16)) 0 (hex_digit-ne-zero (c / 16)),
  ne→== (hex_digit (c % 16)) 0 (hex_digit-ne-zero (c % 16)),
)
  where
    hex_digit-ne-zero : (d : ℕ) → hex_digit d ≢ 0
    hex_digit-ne-zero d e = ground arith

c_string-sanitized : (c : ℕ) → c_string (sanitized c ∷ []) ≡ sanitized c ∷ []
unfolding c_string sanitized
c_string-sanitized c = ground arith

module _ (B : Bstrlib) (L : IsLawful B) where
  dump_loop_lem :
      (raw hex san : Bytes)
      → IsBytes raw
      → dump_loop B raw (some hex) (some san)
        ≡ (some (hex ++ hex_of raw), some (san ++ map sanitized raw))
  unfolding dump_loop hex_of
  dump_loop_lem [] hex san h = rw (append-nil hex, append-nil san)
  dump_loop_lem (c ∷ cs) hex san h = rw (
    L.bfromcstr_some (hex_text c),
    L.bfromcstr_some (sanitized c ∷ []),
    c_string-hex_text c h.0,
    c_string-sanitized c,
    L.bconcat_some hex (hex_text c),
    L.bconcat_some san (sanitized c ∷ []),
    dump_loop_lem cs (hex ++ hex_text c) (san ++ (sanitized c ∷ [])) h.1,
    append_assoc hex (hex_text c) (hex_of cs),
    append_assoc san (sanitized c ∷ []) (map sanitized cs),
  )

  -- For a string of bytes, `debug_bstring` prints three characters of hexadecimal for each byte,
  -- and the string with `@` for each byte 0 or 255, if its buffer is allocated; otherwise it
  -- prints neither. The string functions behave as documented.
  pub debug_bstring_lem :
      (raw : Bytes) (can_alloc : Bool)
      → IsBytes raw
      → debug_bstring B can_alloc (some raw)
        ≡ (if can_alloc then some (some (hex_of raw), some (map sanitized raw)) else none)
  unfolding debug_bstring
  debug_bstring_lem raw can_alloc h =
      rw (L.bfromcstr_some [], c_string-nil, dump_loop_lem raw [] [] h)
    where
      c_string-nil : c_string [] ≡ []
      c_string-nil = unfold c_string in refl
