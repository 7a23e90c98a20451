-- ===== src/Common/Bytes.antt =====
-- Go's len of a string: the bytes of its UTF-8 encoding.
use Prim.Native.Char.{Char, code}
use Prim.Native.Nat.{ℕ, ◌+◌}
use Prim.Native.String.{String}
use mathlib.Core.Path.{◌≡◌, refl}
use apekeeper.Common.Tests.{if◌then◌else◌, ltb}

abbrev char_bytes : Char → ℕ
char_bytes c =
    if ltb (code c) 128
    then 1
    else if ltb (code c) 2048
    then 2
    else if ltb (code c) 65536
    then 3
    else 4

abbrev pub byte_length : String → ℕ
byte_length String.[] = 0
byte_length (String.◌∷◌ c s) = char_bytes c + byte_length s

byte_length_test : byte_length "Ürok" ≡ 5
byte_length_test = refl
