-- ===== src/Klibc/Tests.antt =====
-- Runs on a small memory, and the theorems at concrete inputs.
use fexox_os.Base.{◌+◌, ◌-◌, ◌≡◌, refl, some, ltb, if◌then◌else◌}
use fexox_os.Base.Int.{negsuc}
use fexox_os.Klibc.{Memory, memmove, memcmp, strlen}
use fexox_os.Klibc.Copies.{within, memmove_lem}

-- the bytes 1 to 9 in the addresses 1 to 9, and zeros
abbrev digits : Memory
digits i = if ltb i 10 then i else 0

overlapping : memmove digits 3 1 4 6 ≡ 4
unfolding memmove
overlapping = refl

less : memcmp digits 1 2 3 ≡ negsuc 0
unfolding memcmp
less = refl

nine_long : strlen 20 digits 1 ≡ some 9
unfolding strlen
nine_long = refl

memmove_lem_example :
    memmove digits 3 1 4 6 ≡ (if within 3 4 6 then digits (1 + (6 - 3)) else digits 6)
memmove_lem_example = memmove_lem digits 3 1 4 6
