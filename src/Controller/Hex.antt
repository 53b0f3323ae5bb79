-- ===== src/Controller/Hex.antt =====
-- `hex.EncodeToString`, with which clientcontroller/babylon.go hands on transactions.
use Prim.Native.Char.{Char}
use Prim.Native.String
use covenant.Prelude.{ℕ, ◌/◌, ◌%◌, String, [], ◌∷◌}
use covenant.Libraries.{Bytes}

-- The digits of `encoding/hex`.
unfoldable pub hex_digit : ℕ → Char
hex_digit n = String.char_at "0123456789abcdef" n

unfoldable pub encode_to_string : Bytes → String
unfolding hex_digit
encode_to_string [] = ""
encode_to_string (x ∷ xs) =
    String.◌∷◌ (hex_digit (x / 16)) (String.◌∷◌ (hex_digit (x % 16)) (encode_to_string xs))
