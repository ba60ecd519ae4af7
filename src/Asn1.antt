-- ===== src/Asn1.antt =====
-- asn1.go: `marshal` and `unmarshal`, over encoding/asn1 at one Go type.
pub mod Canonical
pub mod Outcome
use canonical.Prelude.{ℕ, ◌^◌, ◌<◌, ◌≡◌, Bool, not, List, ◌++◌, Bytes, length, bytes_equal}
use canonical.Prelude.{ℤ, pos, ◌==◌, if◌then◌else◌}
use canonical.Errors.{Result, ok, err, err_trailing, err_non_canonical, ◌>>=◌}

-- asn1.Marshal and asn1.Unmarshal at the Go type A. Unmarshal returns the value and the bytes
-- after it.
pub record Encoding {ℓ} (A : Type ℓ) : Type ℓ where
  pub encode : A → Result Bytes
  pub decode : Bytes → Result (A × Bytes)

-- The ceiling on lengths that WIRE-SPEC.md 2.4.2 documents for this implementation.
abbrev pub length_ceiling : ℕ
length_ceiling = 2 ^ 23

-- Documented of encoding/asn1: Unmarshal reads back what Marshal wrote, below the ceiling on
-- lengths, and returns what follows it untouched.
pub record IsLossless {ℓ} {A : Type ℓ} (E : Encoding A) : Type ℓ where
  pub decode-encode :
      (v : A) (b rest : Bytes)
      → E.encode v ≡ ok b
      → length b < length_ceiling
      → E.decode (b ++ rest) ≡ ok (v, rest)

abbrev pub version_v1 : ℤ
version_v1 = pos 1

module _ {ℓ} {A : Type ℓ} (E : Encoding A) where
  unfoldable pub marshal : A → Result Bytes
  marshal v = E.encode v

  unfoldable pub unmarshal : Bytes → Result A
  unmarshal b = do
    (v, rest) ← E.decode b
    if not (length rest == 0)
        then err err_trailing
        else do round ← marshal v; if not (bytes_equal round b) then err err_non_canonical else ok v
