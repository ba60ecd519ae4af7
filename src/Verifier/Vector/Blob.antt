-- ===== src/Verifier/Vector/Blob.antt =====
-- ci/verify_vectors.py: `check_blob_signature` on the object of a Go SignedBlobV1.
use canonical.Prelude.{
  ◌∙◌, sym, refl, arith, ◌-◌, false, ◌+◌, true, length, ◌↔◌, ◌==◌, ◌%◌, ap, ◌≡◌, ◌∷◌, if◌then◌else◌,
  Bool, ℕ, Bytes,
}
use canonical.Verifier.Vector.{verify_envelope, refuse_foreign, check_signature, rebuilt, expect}
use canonical.Structures.{versioned, signed_v1, signed_blob_v1}
use canonical.Structures.Binding.{envelope}
use canonical.Verifier.Objects.{tree_of, dict_of}
use canonical.Verifier.{encode_value}
use canonical.Verifier.Encode.{encode_struct, struct_value-dict_of}
use canonical.Verifier.Schema.{number, octets}
use canonical.Verifier.Outcome.{Run, returned, raised, ◌>>=◌}
use canonical.Signed.{SignedBlobV1}
use canonical.Verifier.Ed25519.{ed25519_verify}
use canonical.Verifier.Ed25519.Total.{ed25519_verify-total}

-- The bytes of the envelope over a genesis digest that a blob is signed in.
abbrev pub signed_bytes : Bytes → SignedBlobV1 → Bytes
signed_bytes digest blob =
    encode_value (tree_of (versioned signed_v1) (envelope blob.purpose digest blob.payload))

rebuilt-eq :
    (digest : Bytes) (blob : SignedBlobV1)
    → rebuilt (number blob.purpose) (octets digest) (octets blob.payload)
      ≡ returned (signed_bytes digest blob)
unfolding rebuilt encode_struct
rebuilt-eq digest blob =
    ap (λ m. m >>= λ v. returned (encode_value v))
      (struct_value-dict_of (versioned signed_v1) (envelope blob.purpose digest blob.payload))

-- foreign, for a digest that is not empty.
abbrev pub flipped : ℕ → Bytes → Bytes
flipped b bs = (if b % 2 == 0 then b + 1 else b - 1) ∷ bs

-- The ends of the check, by its three tests.
answers :
    (l n m : ℕ) (c d : Bool)
    → ((expect (l == 32) >>= λ _. expect c >>= λ _. if d then raised else returned n) ≡ returned m)
      ↔ ((l ≡ 32) × (c ≡ true) × (d ≡ false) × (m ≡ n))
answers l n m c d = sized (l == 32) c d (equal_of l) (of_equal l)
  where
    equal_of : (l : ℕ) → (l == 32) ≡ true → l ≡ 32
    equal_of l h = ground arith

    of_equal : (l : ℕ) → l ≡ 32 → (l == 32) ≡ true
    of_equal l h = ground arith

    sized :
        (a c d : Bool)
        → (a ≡ true → l ≡ 32)
        → (l ≡ 32 → a ≡ true)
        → ((expect a >>= λ _. expect c >>= λ _. if d then raised else returned n) ≡ returned m)
          ↔ ((l ≡ 32) × (c ≡ true) × (d ≡ false) × (m ≡ n))
    sized true true true f g = (λ h. cc, λ (_, _, h, _). cc)
    sized true true false f g = (λ h. (f refl, refl, refl, cc), λ (_, _, _, h). cc)
    sized true false d f g = (λ h. cc, λ (_, h, _, _). cc)
    sized false c d f g = (λ h. cc, λ (h, _, _, _). let k = g h in cc)

module _ (sha512 : Bytes → Bytes) (b : ℕ) (bs key : Bytes) (blob : SignedBlobV1) (c d : Bool)
    (mine : ed25519_verify sha512 key (signed_bytes (b ∷ bs) blob) blob.value ≡ returned c)
    (theirs : ed25519_verify sha512 key (signed_bytes (flipped b bs) blob) blob.value
      ≡ returned d) where
  refuse_foreign-eq :
      (n : ℕ)
      → refuse_foreign sha512 key blob.value
          (number blob.purpose)
          (octets (b ∷ bs))
          (octets blob.payload)
          n
        ≡ (if d then raised else returned n)
  unfolding refuse_foreign
  refuse_foreign-eq n =
      ap
        (λ m. m >>= λ other.
          ed25519_verify sha512 key other blob.value >>= λ t. if t then raised else returned n)
        (rebuilt-eq (flipped b bs) blob)
      ∙ ap (λ m. m >>= λ t. if t then raised else returned n) theirs

  verify_envelope-eq :
      verify_envelope sha512 key blob.value
        (number blob.purpose)
        (octets (b ∷ bs))
        (octets blob.payload)
      ≡ (expect c >>= λ _. if d then raised else returned (length (signed_bytes (b ∷ bs) blob)))
  unfolding verify_envelope
  verify_envelope-eq =
      let foreign : ℕ → Run ℕ =
        refuse_foreign sha512 key blob.value (number blob.purpose) (octets (b ∷ bs))
          (octets blob.payload) in
      ap
        (λ m. m >>= λ own.
          ed25519_verify sha512 key own blob.value >>= λ t. expect t >>= λ _. foreign (length own))
        (rebuilt-eq (b ∷ bs) blob)
      ∙ ap (λ m. m >>= λ t. expect t >>= λ _. foreign (length (signed_bytes (b ∷ bs) blob))) mine
      ∙ ap (λ m. expect c >>= λ _. m) (refuse_foreign-eq (length (signed_bytes (b ∷ bs) blob)))

  check_signature-eq :
      check_signature sha512
        (octets (b ∷ bs))
        (octets key)
        (dict_of (versioned signed_blob_v1) blob)
      ≡ (expect (length key == 32) >>= λ _.
          expect c >>= λ _. if d then raised else returned (length (signed_bytes (b ∷ bs) blob)))
  unfolding check_signature
  check_signature-eq = ap (λ m. expect (length key == 32) >>= λ _. m) verify_envelope-eq

-- For a genesis digest that is not empty, on the object of a Go SignedBlobV1: what
-- check_blob_signature does behind the test of its inputs returns a number exactly when the key
-- has 32 bytes, ed25519_verify accepts the blob's value over the DER of the envelope with that
-- digest, refuses it over the envelope whose digest has the lowest bit of its first byte flipped,
-- and the number is the length of the first envelope.
pub check_signature_iff :
    (sha512 : Bytes → Bytes) (b : ℕ) (bs key : Bytes) (blob : SignedBlobV1) (n : ℕ)
    → (check_signature sha512
          (octets (b ∷ bs))
          (octets key)
          (dict_of (versioned signed_blob_v1) blob)
        ≡ returned n)
      ↔ ((length key ≡ 32)
          × (ed25519_verify sha512 key (signed_bytes (b ∷ bs) blob) blob.value ≡ returned true)
          × (ed25519_verify sha512 key (signed_bytes (flipped b bs) blob) blob.value
              ≡ returned false)
          × (n ≡ length (signed_bytes (b ∷ bs) blob)))
check_signature_iff sha512 b bs key blob n =
    let (c, mine) = ed25519_verify-total sha512 key (signed_bytes (b ∷ bs) blob) blob.value in
    let (d, theirs) =
      ed25519_verify-total sha512 key (signed_bytes (flipped b bs) blob) blob.value in
    let whole = check_signature-eq sha512 b bs key blob c d mine theirs in
    let ends = answers (length key) (length (signed_bytes (b ∷ bs) blob)) n c d in
    (
      λ h.
          let (sized, yes_, no_, size) = ends.0 (sym whole ∙ h) in
          (sized, mine ∙ ap returned yes_, theirs ∙ ap returned no_, size),
      λ (sized, yes_, no_, size). whole ∙ ends.1 (sized, cc, cc, size),
    )
