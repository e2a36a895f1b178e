-- ===== src/Lease/Record/Uuid.antt =====
-- `newUUIDv4` of lease/record.go on the 16 bytes that it reads.
use Prim.Native.Nat.{bit_and, bit_or}
use Prim.Native.String.{◌++◌}
use s3_lease.Prelude.{ℕ, zero, suc, ◌/◌, ◌%◌, String, List, [], ◌∷◌, take, drop}

-- `hex.Encode` of half a byte.
abbrev hex_digit : ℕ → String
hex_digit zero = "0"
hex_digit (suc zero) = "1"
hex_digit (suc (suc zero)) = "2"
hex_digit (suc (suc (suc zero))) = "3"
hex_digit (suc (suc (suc (suc zero)))) = "4"
hex_digit (suc (suc (suc (suc (suc zero))))) = "5"
hex_digit (suc (suc (suc (suc (suc (suc zero)))))) = "6"
hex_digit (suc (suc (suc (suc (suc (suc (suc zero))))))) = "7"
hex_digit (suc (suc (suc (suc (suc (suc (suc (suc zero)))))))) = "8"
hex_digit (suc (suc (suc (suc (suc (suc (suc (suc (suc zero))))))))) = "9"
hex_digit (suc (suc (suc (suc (suc (suc (suc (suc (suc (suc zero)))))))))) = "a"
hex_digit (suc (suc (suc (suc (suc (suc (suc (suc (suc (suc (suc zero))))))))))) = "b"
hex_digit (suc (suc (suc (suc (suc (suc (suc (suc (suc (suc (suc (suc zero)))))))))))) = "c"
hex_digit (suc (suc (suc (suc (suc (suc (suc (suc (suc (suc (suc (suc (suc zero))))))))))))) = "d"
hex_digit (suc (suc (suc (suc (suc (suc (suc (suc (suc (suc (suc (suc (suc (suc zero)))))))))))))) =
    "e"
hex_digit n = "f"

unfoldable pub hex : List ℕ → String
hex [] = ""
hex (b ∷ bytes) = hex_digit (b / 16 % 16) ++ hex_digit (b % 16) ++ hex bytes

-- The byte at a place is changed.
abbrev modify : ℕ → (ℕ → ℕ) → List ℕ → List ℕ
modify n f [] = []
modify zero f (b ∷ bytes) = f b ∷ bytes
modify (suc n) f (b ∷ bytes) = b ∷ modify n f bytes

unfoldable pub versioned : List ℕ → List ℕ
versioned raw =
    modify 8 (λ b. bit_or (bit_and b 0x3f) 0x80) (modify 6 (λ b. bit_or (bit_and b 0x0f) 0x40) raw)

abbrev slice : ℕ → ℕ → List ℕ → String
slice from count raw = hex (take count (drop from raw))

unfoldable pub format_uuid : List ℕ → String
unfolding versioned hex
format_uuid bytes =
    let raw = versioned bytes in
    slice 0 4 raw
    ++ "-"
    ++ slice 4 2 raw
    ++ "-"
    ++ slice 6 2 raw
    ++ "-"
    ++ slice 8 2 raw
    ++ "-"
    ++ slice 10 6 raw
