-- ===== src/Tests/Blob.antt =====
-- ci/verify_vectors.py on blob/v1/signed-by-test-key of testdata/vectors.json.
use canonical.Verifier.Checks.{is_printable}
use canonical.Prelude.{[], ◌∷◌, ◌≡◌, ◌==◌, refl, Bytes, pos, some, if◌then◌else◌, drop}
use canonical.Signed.{SignedBlobV1}
use canonical.Verifier.Schema.{Name, Key, entry, number, octets, done}
use canonical.Verifier.{read_value}
use canonical.Verifier.Vector.{Vector, check_vector, verified, payload_is}
use canonical.Verifier.Outcome.{returned}

abbrev pub genesis_digest : Bytes
genesis_digest =
    111 ∷ 1 ∷ 5 ∷ 60 ∷ 60 ∷ 49 ∷ 56 ∷ 173 ∷ 213 ∷ 27 ∷ 33 ∷ 10 ∷ 160 ∷ 0 ∷ 72 ∷ 165 ∷ 59 ∷ 243 ∷ 33
    ∷ 185 ∷ 66 ∷ 220 ∷ 169 ∷ 120 ∷ 62 ∷ 186 ∷ 85 ∷ 99 ∷ 116 ∷ 120 ∷ 220 ∷ 86 ∷ []

abbrev pub blob_key : Bytes
blob_key =
    3 ∷ 161 ∷ 7 ∷ 191 ∷ 243 ∷ 206 ∷ 16 ∷ 190 ∷ 29 ∷ 112 ∷ 221 ∷ 24 ∷ 231 ∷ 75 ∷ 192 ∷ 153 ∷ 103
    ∷ 228 ∷ 214 ∷ 48 ∷ 155 ∷ 165 ∷ 13 ∷ 95 ∷ 29 ∷ 220 ∷ 134 ∷ 100 ∷ 18 ∷ 85 ∷ 49 ∷ 184 ∷ []

abbrev pub signed_by_test_key : SignedBlobV1
signed_by_test_key = record {
  version = pos 1;
  purpose = pos 4;
  payload =
      48 ∷ 31 ∷ 2 ∷ 1 ∷ 1 ∷ 2 ∷ 1 ∷ 2 ∷ 2 ∷ 1 ∷ 9 ∷ 2 ∷ 2 ∷ 16 ∷ 0 ∷ 4 ∷ 16 ∷ 177 ∷ 177 ∷ 177 ∷ 177
      ∷ 177 ∷ 177 ∷ 177 ∷ 177 ∷ 177 ∷ 177 ∷ 177 ∷ 177 ∷ 177 ∷ 177 ∷ 177 ∷ 177 ∷ [];
  value =
      131 ∷ 246 ∷ 6 ∷ 188 ∷ 108 ∷ 94 ∷ 18 ∷ 184 ∷ 82 ∷ 93 ∷ 243 ∷ 15 ∷ 122 ∷ 206 ∷ 111 ∷ 116 ∷ 215
      ∷ 19 ∷ 181 ∷ 138 ∷ 134 ∷ 37 ∷ 225 ∷ 7 ∷ 174 ∷ 12 ∷ 155 ∷ 107 ∷ 128 ∷ 134 ∷ 46 ∷ 174 ∷ 88 ∷ 159
      ∷ 130 ∷ 158 ∷ 31 ∷ 205 ∷ 113 ∷ 247 ∷ 229 ∷ 237 ∷ 90 ∷ 246 ∷ 67 ∷ 147 ∷ 0 ∷ 64 ∷ 112 ∷ 228 ∷ 99
      ∷ 77 ∷ 113 ∷ 183 ∷ 169 ∷ 12 ∷ 73 ∷ 226 ∷ 136 ∷ 106 ∷ 10 ∷ 35 ∷ 116 ∷ 7 ∷ [];
}

-- SHA-512 of what is hashed for the envelope, and of what is hashed for the one under the foreign
-- digest, told apart by the first octet of the digest in it.
abbrev pub own_hash : Bytes
own_hash =
    39 ∷ 211 ∷ 226 ∷ 56 ∷ 12 ∷ 64 ∷ 36 ∷ 38 ∷ 252 ∷ 152 ∷ 107 ∷ 97 ∷ 36 ∷ 209 ∷ 25 ∷ 198 ∷ 253 ∷ 167
    ∷ 163 ∷ 154 ∷ 169 ∷ 250 ∷ 35 ∷ 209 ∷ 129 ∷ 1 ∷ 66 ∷ 228 ∷ 194 ∷ 158 ∷ 20 ∷ 107 ∷ 14 ∷ 249 ∷ 149
    ∷ 42 ∷ 149 ∷ 94 ∷ 198 ∷ 43 ∷ 154 ∷ 209 ∷ 180 ∷ 255 ∷ 39 ∷ 238 ∷ 118 ∷ 153 ∷ 26 ∷ 181 ∷ 181 ∷ 237
    ∷ 209 ∷ 125 ∷ 87 ∷ 174 ∷ 203 ∷ 221 ∷ 243 ∷ 141 ∷ 186 ∷ 104 ∷ 180 ∷ 164 ∷ []

abbrev pub foreign_hash : Bytes
foreign_hash =
    190 ∷ 199 ∷ 147 ∷ 161 ∷ 53 ∷ 118 ∷ 50 ∷ 161 ∷ 123 ∷ 158 ∷ 161 ∷ 25 ∷ 44 ∷ 237 ∷ 169 ∷ 229 ∷ 8
    ∷ 148 ∷ 31 ∷ 115 ∷ 181 ∷ 177 ∷ 158 ∷ 112 ∷ 157 ∷ 209 ∷ 13 ∷ 230 ∷ 102 ∷ 25 ∷ 211 ∷ 27 ∷ 145
    ∷ 160 ∷ 87 ∷ 74 ∷ 78 ∷ 226 ∷ 49 ∷ 146 ∷ 234 ∷ 135 ∷ 172 ∷ 226 ∷ 238 ∷ 62 ∷ 109 ∷ 88 ∷ 170 ∷ 217
    ∷ 15 ∷ 148 ∷ 58 ∷ 152 ∷ 218 ∷ 86 ∷ 154 ∷ 242 ∷ 222 ∷ 67 ∷ 146 ∷ 190 ∷ 239 ∷ 181 ∷ []

abbrev first_of_digest : Bytes → Bytes
first_of_digest [] = []
first_of_digest (b ∷ bs) = if b == 111 then own_hash else foreign_hash

abbrev pub hash : Bytes → Bytes
hash message = first_of_digest (drop 74 message)

abbrev blob_vector : Vector
blob_vector = record {
  structure = some Name.signed_blob_v1;
  der =
      48 ∷ 107 ∷ 2 ∷ 1 ∷ 1 ∷ 2 ∷ 1 ∷ 4 ∷ 4 ∷ 33 ∷ 48 ∷ 31 ∷ 2 ∷ 1 ∷ 1 ∷ 2 ∷ 1 ∷ 2 ∷ 2 ∷ 1 ∷ 9 ∷ 2
      ∷ 2 ∷ 16 ∷ 0 ∷ 4 ∷ 16 ∷ 177 ∷ 177 ∷ 177 ∷ 177 ∷ 177 ∷ 177 ∷ 177 ∷ 177 ∷ 177 ∷ 177 ∷ 177 ∷ 177
      ∷ 177 ∷ 177 ∷ 177 ∷ 177 ∷ 4 ∷ 64 ∷ 131 ∷ 246 ∷ 6 ∷ 188 ∷ 108 ∷ 94 ∷ 18 ∷ 184 ∷ 82 ∷ 93 ∷ 243
      ∷ 15 ∷ 122 ∷ 206 ∷ 111 ∷ 116 ∷ 215 ∷ 19 ∷ 181 ∷ 138 ∷ 134 ∷ 37 ∷ 225 ∷ 7 ∷ 174 ∷ 12 ∷ 155
      ∷ 107 ∷ 128 ∷ 134 ∷ 46 ∷ 174 ∷ 88 ∷ 159 ∷ 130 ∷ 158 ∷ 31 ∷ 205 ∷ 113 ∷ 247 ∷ 229 ∷ 237 ∷ 90
      ∷ 246 ∷ 67 ∷ 147 ∷ 0 ∷ 64 ∷ 112 ∷ 228 ∷ 99 ∷ 77 ∷ 113 ∷ 183 ∷ 169 ∷ 12 ∷ 73 ∷ 226 ∷ 136 ∷ 106
      ∷ 10 ∷ 35 ∷ 116 ∷ 7 ∷ [];
  fields = entry Key.version (number (pos 1)) (
      entry Key.purpose (number (pos 4)) (
        entry Key.payload (octets signed_by_test_key.payload) (
          entry Key.value (octets signed_by_test_key.value) (
            entry Key.genesis_digest (octets genesis_digest)
              (entry Key.pub_key (octets blob_key) done)))));
  sha256 =
      28 ∷ 230 ∷ 154 ∷ 130 ∷ 240 ∷ 218 ∷ 205 ∷ 85 ∷ 73 ∷ 75 ∷ 150 ∷ 98 ∷ 248 ∷ 0 ∷ 98 ∷ 62 ∷ 5 ∷ 25
      ∷ 151 ∷ 52 ∷ 178 ∷ 232 ∷ 17 ∷ 242 ∷ 63 ∷ 11 ∷ 255 ∷ 81 ∷ 149 ∷ 9 ∷ 113 ∷ 41 ∷ [];
}

blob_passes :
    check_vector (λ _. blob_vector.sha256) hash blob_vector
    ≡ returned (record {
      size = 109;
      forgeries = 3;
      notes = payload_is Name.read_index_v1 ∷ verified 77 ∷ [];
    })
unfolding check_vector read_value is_printable
blob_passes = refl
