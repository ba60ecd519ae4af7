-- ===== src/Lib.antt =====
-- Canonical encodings for SmartBFT: the bytes that a cluster hashes and signs.
--
-- The program. The package at the root of the repository encodes ten structures as DER, and decodes
-- them so that one value has one spelling; it hashes Merkle nodes; and it comes with a go/analysis
-- pass that reports code whose output depends on map order or on a foreign encoder.
--   asn1.go        Asn1            `marshal` and `unmarshal`, which every structure goes through.
--                  Asn1/Canonical  What an accepted input is, and a checked decoder against a checked
--                                  encoder.
--                  Asn1/Outcome    The steps of `unmarshal`, and how each ends.
--   errors.go      Errors          The sentinel errors, and Go's (value, error) as `Result`.
--   header.go      Header          MarshalHeader, UnmarshalHeader.
--   proposal.go    Proposal        MarshalProposalV0, UnmarshalProposalV0.
--   signatures.go  Signatures      MarshalSignatureSetV0, UnmarshalSignatureSetV0.
--   attest.go      Attest          The read-index attestation and checkReadIndexV1.
--   signed.go      Signed          The envelope that is signed, the signed blob and the commit payload.
--   commitcert.go  CommitCert      The commit certificate; its loop over the signatures is `check_sigs`.
--                  CommitCert/Faults, CommitCert/Refusal  Its constraints in the order of the code.
--                  CommitCert/Quorum  A certificate with the cluster definition it is checked with.
--   request.go     Request         The client request; its loop over the intermediates is
--                                  `check_intermediates`.
--   genesis.go     Genesis         The cluster definition; its loop over the members is
--                                  `check_members`, and spiffeIDV1 is `spiffe_id_v1`.
--                  Genesis/Rounds, Genesis/Faults, Genesis/Refusal  Its constraints in the order of the code.
--                  (Attest, Request and Signed have a child Refusal too, with the constraints in
--                  the order of the code.)
--   merkle.go      Merkle          LeafHash, InternalHash and EmptyHash.
--   lint/determinism/analyzer.go   Lint: `run`, the two rules, the directives.
--   ci/verify_vectors.py   Verifier  The second implementation of the wire rules, in Python: its DER
--                                  reader and writer (Verifier), SCHEMAS, decode_struct and
--                                  encode_struct (Schema, Encode), validate and the constraints
--                                  (Checks, Validate), derived_forgeries (Forge, Forgeries),
--                                  merkle_hash (MerkleHash), compare_fields (Compare), Ed25519
--                                  (Ed25519) and check_vector with its notes (Vector).
-- A structure's module has the Go types as records and the functions under their Go names in snake
-- case; its child `Valid` (in Signed: Envelope, Blob, Payload) states its constraints as a record,
-- without reference to the code. Structures takes the ten exported pairs of functions as one family,
-- and Structures/Valid their constraints.
-- Merkle/Preimage gives the three hashes one domain.
-- Der is a concrete encoding/asn1 for the structures, used to run the functions at the vectors of
-- testdata/vectors.json (Tests/Vectors) and the theorems at concrete inputs (Tests/Witness).
--
-- Modelling. A []byte is a list of numbers; nil and the empty slice are one value, as the program
-- only takes its length, compares it and encodes it. An int64 is an integer; a conversion to int64
-- keeps its wrap-around (`to_int64`), as do uint64(len(..)) and PutUint64. An error is a constructor
-- of `Error`, and a check that returns only an error is an `Option Error`, where `none` is nil. The
-- zero value that Go returns beside an error is left out. A range loop is a structural recursion, with
-- the entry before as an argument where the body looks back.
--
-- The Python script. A call ends in `Run`: it returns, it raises a SpecError (`raised`), or it raises
-- another exception (`broken`). A window data[off:limit] is the list of its octets, and an offset what
-- is left of that list; a hexadecimal string stands as its octets, and an object as its fields in
-- order; a structure name that SCHEMAS does not have is `none`. Objects and Agree relate the
-- objects of the script to the Go values of the package, Spliced the script's forgeries to asn1.go, and
-- Vector/Conforms the passing vectors to the Unmarshal functions. In Ed25519 a difference is taken
-- modulo P (`minus`), so that no number is negative; every difference there is reduced by P. hashlib's
-- sha256 and sha512 are functions of bytes, of which nothing is assumed. Tests/Signature runs
-- ed25519_verify at the first test of RFC 8032, and Tests/Blob all of check_vector at the vector
-- that carries a signature, with the SHA-512 values of the two messages in it.
--
-- Limits of Python. The text of an error prints the integer at fault, and the SPIFFE ID the node id:
-- CPython raises a ValueError for an integer of more than 4300 digits, here `broken` (`is_printable`,
-- `raise_printing`). The stack is not modelled: near 1000 nested SEQUENCEs `_read_value` ends in a
-- RecursionError, where read_value goes on. The theorems that compare the script with the Go package,
-- or say how it ends, are about inputs and messages of fewer than 1700 octets, which hold no such integer
-- and fewer than 850 nested values, or about values of the ten structures, which are three deep; those
-- about parse_der hold of the script as far as its stack reaches.
--
-- Parameters. encoding/asn1 is a record `Encoding`, of Marshal and Unmarshal at one Go type, and
-- the theorems that rely on it name the law `IsLossless`: below a ceiling of 2^23 on the length
-- (WIRE-SPEC.md 2.4.2), Unmarshal reads what Marshal wrote and returns the bytes behind it. It does
-- not say that Unmarshal is strict: refusing what is not canonical is what asn1.go adds. Where the
-- two implementations meet, `WritesDer` says that Marshal writes DER. SHA-256 is a function with
-- digests of 32 bytes; that it resists collisions is not assumed, and the theorems give the
-- collision instead. regexp.Compile is a parameter of `run`; the syntax tree, the positions and the
-- type checker of go/analysis are the fields of `Pass`, with the nodes in the inspector's order.
--
-- Bounds and fuel. In Der, the loop that counts the octets of an integer has fuel 7, which is enough
-- for 8 octets, and the loop over the content of a SEQUENCE OF has the length of the content as fuel,
-- since each round reads an octet at least; both are part of the proof that Der is lossless. Der
-- refuses a length of more than four octets. `parse_der` has twice the length of the input and one as
-- fuel: a call of the reader takes a unit, and each value and each round of its loop has an octet of its
-- own. `octet_count` and `minimal_width` have the number itself. `struct_value` and `compare_fields` have
-- fuel 2, the depth of SCHEMAS. `pow_mod`, which stands for Python's built-in pow, has 256, the length
-- in bits that bounds its exponents, which are below P, and `point_mul` 257, for scalars below 2^256:
-- S and the reduced hash are below Q.
--
-- Not modelled. doc.go (a comment), lint/cmd/detcheck/main.go (one call), the tests, the shell scripts
-- under ci and the workflows: I/O, data and configuration. Of ci/verify_vectors.py: main, which reads the
-- vectors file, loops over it and prints, and the counts in CHECKED, which main prints. Values of that
-- file that are neither a number, a string nor a list of objects are left out.
pub mod Prelude
pub mod Errors
pub mod Asn1
pub mod Proposal
pub mod Signatures
pub mod Header
pub mod Attest
pub mod Signed
pub mod CommitCert
pub mod Request
pub mod Genesis
pub mod Octets
pub mod Der
pub mod Verifier
pub mod Tests
pub mod Merkle
pub mod Lint
pub mod Structures
