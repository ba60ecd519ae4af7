-- ===== src/Verifier/Printable.antt =====
-- ci/verify_vectors.py: the objects whose integers CPython prints.
pub mod Short
use canonical.Prelude.{refl, ltb, leb, ℕ, ◌≡◌, true, ◌<◌, ◌^◌, ◌+◌, ℤ, pos_part, neg_part, arith}
use canonical.Verifier.Checks.{is_printable}
use canonical.Verifier.Schema.{
  Dict, Dicts, Field, number, octets, list, done, entry, no_dicts, dict,
}

abbrev mutual
  pub IsPrintable : Dict → Type 0
  IsPrintable done = Unit
  IsPrintable (entry key f o) = IsPrintableField f × IsPrintable o

  pub IsPrintableField : Field → Type 0
  IsPrintableField (number i) = is_printable i ≡ true
  IsPrintableField (octets b) = Unit
  IsPrintableField (list ds) = IsPrintableDicts ds

  pub IsPrintableDicts : Dicts → Type 0
  IsPrintableDicts no_dicts = Unit
  IsPrintableDicts (dict o ds) = IsPrintable o × IsPrintableDicts ds

below : (n small large : ℕ) → n < small → leb small large ≡ true → ltb n large ≡ true
below n small large h k = ground arith

-- An integer of 1700 octets has 4095 digits at most.
pub is_printable-lt : (i : ℤ) → pos_part i + neg_part i < 256 ^ 1700 + 1 → is_printable i ≡ true
unfolding is_printable
is_printable-lt i small = below (pos_part i + neg_part i) (256 ^ 1700 + 1) (10 ^ 4300) small refl
