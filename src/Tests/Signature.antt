-- ===== src/Tests/Signature.antt =====
-- Ed25519 of ci/verify_vectors.py on the first test of RFC 8032, section 7.1.
use canonical.Prelude.{[], ◌∷◌, ◌≡◌, refl, true, false, Bytes}
use canonical.Verifier.Ed25519.{ed25519_verify}
use canonical.Verifier.Outcome.{returned}

-- The key, the signature of the empty message, and SHA-512 of R, the key and the message.
abbrev pub public_key : Bytes
public_key =
    215 ∷ 90 ∷ 152 ∷ 1 ∷ 130 ∷ 177 ∷ 10 ∷ 183 ∷ 213 ∷ 75 ∷ 254 ∷ 211 ∷ 201 ∷ 100 ∷ 7 ∷ 58 ∷ 14 ∷ 225
    ∷ 114 ∷ 243 ∷ 218 ∷ 166 ∷ 35 ∷ 37 ∷ 175 ∷ 2 ∷ 26 ∷ 104 ∷ 247 ∷ 7 ∷ 81 ∷ 26 ∷ []

abbrev pub signature : Bytes
signature =
    229 ∷ 86 ∷ 67 ∷ 0 ∷ 195 ∷ 96 ∷ 172 ∷ 114 ∷ 144 ∷ 134 ∷ 226 ∷ 204 ∷ 128 ∷ 110 ∷ 130 ∷ 138 ∷ 132
    ∷ 135 ∷ 127 ∷ 30 ∷ 184 ∷ 229 ∷ 217 ∷ 116 ∷ 216 ∷ 115 ∷ 224 ∷ 101 ∷ 34 ∷ 73 ∷ 1 ∷ 85 ∷ 95 ∷ 184
    ∷ 130 ∷ 21 ∷ 144 ∷ 163 ∷ 59 ∷ 172 ∷ 198 ∷ 30 ∷ 57 ∷ 112 ∷ 28 ∷ 249 ∷ 180 ∷ 107 ∷ 210 ∷ 91 ∷ 245
    ∷ 240 ∷ 89 ∷ 91 ∷ 190 ∷ 36 ∷ 101 ∷ 81 ∷ 65 ∷ 67 ∷ 142 ∷ 122 ∷ 16 ∷ 11 ∷ []

abbrev pub hashed : Bytes
hashed =
    39 ∷ 113 ∷ 6 ∷ 43 ∷ 107 ∷ 83 ∷ 111 ∷ 231 ∷ 255 ∷ 189 ∷ 218 ∷ 3 ∷ 32 ∷ 195 ∷ 130 ∷ 123 ∷ 3 ∷ 93
    ∷ 241 ∷ 13 ∷ 40 ∷ 77 ∷ 243 ∷ 240 ∷ 130 ∷ 34 ∷ 240 ∷ 77 ∷ 188 ∷ 167 ∷ 164 ∷ 194 ∷ 14 ∷ 241 ∷ 91
    ∷ 220 ∷ 152 ∷ 138 ∷ 34 ∷ 199 ∷ 32 ∷ 116 ∷ 17 ∷ 55 ∷ 124 ∷ 51 ∷ 242 ∷ 172 ∷ 9 ∷ 177 ∷ 232 ∷ 106
    ∷ 4 ∷ 98 ∷ 52 ∷ 40 ∷ 55 ∷ 104 ∷ 238 ∷ 123 ∷ 160 ∷ 60 ∷ 14 ∷ 159 ∷ []

pub accepted : ed25519_verify (λ _. hashed) public_key [] signature ≡ returned true
unfolding ed25519_verify
accepted = refl

refused : ed25519_verify (λ _. []) public_key [] signature ≡ returned false
unfolding ed25519_verify
refused = refl
