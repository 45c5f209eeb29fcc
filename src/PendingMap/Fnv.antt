-- ===== src/PendingMap/Fnv.antt =====
-- hash/fnv's 32-bit FNV-1a over the UTF-8 bytes of a text, which pending_map.go's getShard uses.
use Prim.Native.Nat.{bit_xor}
use Prim.Native.Char.{code}
use go_rabbitmq.Base.{ℕ, ◌+◌, ◌*◌, ◌/◌, ◌%◌, ◌^◌, String, List, [], ◌∷◌, ◌++◌, ltb, if◌then◌else◌}

-- The UTF-8 bytes of a code point.
utf8 : ℕ → List ℕ
utf8 c =
    if ltb c 0x80
    then c ∷ []
    else if ltb c 0x800
    then (0xC0 + c / 0x40) ∷ (0x80 + c % 0x40) ∷ []
    else if ltb c 0x1_0000
    then (0xE0 + c / 0x1000) ∷ (0x80 + c / 0x40 % 0x40) ∷ (0x80 + c % 0x40) ∷ []
    else (0xF0 + c / 0x4_0000)
      ∷ (0x80 + c / 0x1000 % 0x40)
      ∷ (0x80 + c / 0x40 % 0x40)
      ∷ (0x80 + c % 0x40)
      ∷ []

unfoldable pub bytes : String → List ℕ
unfolding utf8
bytes String.[] = []
bytes (String.◌∷◌ c s) = utf8 (code c) ++ bytes s

write : ℕ → List ℕ → ℕ
write h [] = h
write h (b ∷ bs) = write (bit_xor h b * 16777619 % 2 ^ 32) bs

unfoldable pub fnv32a : List ℕ → ℕ
unfolding write
fnv32a bs = write 2166136261 bs
