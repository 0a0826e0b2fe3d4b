-- ===== src/Libc/Tests.antt =====
-- Runs of kernel/libc/string.cpp on a small memory, and the theorems at these inputs.
use mesa_os.Prelude.{ℕ, ◌+◌, ◌-◌, ◌<◌, ◌≡◌, refl, ◌&&◌, arith, ltb, leb, if◌then◌else◌}
use mesa_os.Libc.Move.{within, memmove_lem}
use mesa_os.Libc.Strings.{IsString}
use mesa_os.Libc.{Memory, memmove}

-- The string "aaa" stands at 10, and zeros everywhere else.
abbrev bytes : Memory
bytes a = if leb 10 a && ltb a 13 then b'a' else 0

at_ten : IsString bytes 10 3
at_ten = record { chars = λ i h. ground arith; end = refl; short = omega arith }

at_eleven : IsString bytes 11 2
at_eleven = record { chars = λ i h. ground arith; end = refl; short = omega arith }

are_bytes : (a : ℕ) → bytes a < 256
are_bytes a = ground arith

-- The regions overlap.
memmove_lem_example :
    memmove bytes 11 10 3 13 ≡ (if within 11 3 13 then bytes (10 + (13 - 11)) else bytes 13)
memmove_lem_example = memmove_lem bytes 11 10 3 13
