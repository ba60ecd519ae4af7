-- ===== src/Tests/Hex.antt =====
-- Bytes from their hexadecimal digits.
use canonical.Prelude.{ℕ, ◌+◌, ◌-◌, ◌*◌, Bytes, [], ◌∷◌, codes, ltb, if◌then◌else◌}
use Prim.Native.String.{String}

abbrev nibble : ℕ → ℕ
nibble c = if ltb c b'a' then c - b'0' else c - b'a' + 10

abbrev pairs : Bytes → Bytes
pairs (a ∷ b ∷ bs) = (nibble a * 16 + nibble b) ∷ pairs bs
pairs _ = []

abbrev pub hex : String → Bytes
hex s = pairs (codes s)
