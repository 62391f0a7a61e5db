-- ===== src/Base/Hash.antt =====
-- hash/fnv's 64-bit FNV-1a of the UTF-8 bytes of texts.
use Prim.Native.Nat.{ℕ, ◌+◌, ◌*◌, ◌/◌, ◌%◌, bit_xor}
use Prim.Native.Char.{code}
use Prim.Native.String.{String, [], ◌∷◌}
use mathlib.Core.Path.{◌≡◌, refl}
use mathlib.Core.List.{List}
use mcp_memory_core.Base.Tests.{ltb, if◌then◌else◌}

-- The bytes of one code point.
unfoldable pub utf8 : ℕ → List ℕ
utf8 c =
    if ltb c 0x80
    then List.◌∷◌ c List.[]
    else if ltb c 0x800
    then List.◌∷◌ (0xc0 + c / 64) (List.◌∷◌ (0x80 + c % 64) List.[])
    else if ltb c 0x10000
    then List.◌∷◌ (0xe0 + c / 4096)
        (List.◌∷◌ (0x80 + c / 64 % 64) (List.◌∷◌ (0x80 + c % 64) List.[]))
    else List.◌∷◌ (0xf0 + c / 262144) (
        List.◌∷◌ (0x80 + c / 4096 % 64)
          (List.◌∷◌ (0x80 + c / 64 % 64) (List.◌∷◌ (0x80 + c % 64) List.[])))

-- Sum64 of a hasher without input.
abbrev pub offset_basis : ℕ
offset_basis = 14695981039346656037

unfoldable pub write_bytes : ℕ → List ℕ → ℕ
write_bytes h List.[] = h
write_bytes h (List.◌∷◌ b bs) = write_bytes (bit_xor h b * 1099511628211 % 18446744073709551616) bs

-- hasher.Write([]byte(s)), as the new value of Sum64.
unfoldable pub write : String → ℕ → ℕ
unfolding utf8 write_bytes
write [] h = h
write (c ∷ s) h = write s (write_bytes h (utf8 (code c)))

write_foobar : write "foobar" offset_basis ≡ 0x85944171f73967e8
unfolding write
write_foobar = refl
