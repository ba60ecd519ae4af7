-- ===== src/Tests/Vectors/Second.antt =====
-- testdata/vectors.json: vectors decoded and validated as in ci/verify_vectors.py.
use canonical.Verifier.Checks.{is_printable}
use canonical.Prelude.{pos, replicate, ◌^◌, ◌≡◌, refl, ◌∷◌, ◌++◌, [], append_int}
use canonical.Verifier.{read_value}
use canonical.Verifier.Outcome.{returned, raised}
use canonical.Verifier.Schema.{Name}
use canonical.Verifier.Objects.{dict_of}
use canonical.Verifier.Validate.{read_vector}
use canonical.Structures.{header, versioned, commit_certificate_v1, genesis_v1}
use canonical.Header.{Header}
use canonical.Tests.Hex.{hex}
use canonical.Tests.Vectors.Client.{commit_cert_v1_n4_q3, commit_cert_v1_n4_q3_bytes}
use canonical.Tests.Vectors.Ledger.{genesis_v1_long_form_length, genesis_v1_long_form_length_bytes}

commit_cert_v1_n4_q3_second :
    read_vector Name.commit_certificate_v1 commit_cert_v1_n4_q3_bytes
    ≡ returned (dict_of (versioned commit_certificate_v1) commit_cert_v1_n4_q3)
unfolding read_vector read_value
commit_cert_v1_n4_q3_second = refl

genesis_v1_long_form_length_second :
    read_vector Name.genesis_v1 genesis_v1_long_form_length_bytes
    ≡ returned (dict_of (versioned genesis_v1) genesis_v1_long_form_length)
unfolding read_vector read_value append_int is_printable
genesis_v1_long_form_length_second = refl

-- A byte behind the certificate.
commit_cert_v1_n4_q3_trailing :
    read_vector Name.commit_certificate_v1 (commit_cert_v1_n4_q3_bytes ++ (0xff ∷ [])) ≡ raised
unfolding read_vector read_value
commit_cert_v1_n4_q3_trailing = refl

-- A header whose PrevSeq is 2^63, which no int64 is.
abbrev wide_header : Header
wide_header = record {
  version = pos 1;
  prev_state_root = replicate 32 0;
  prev_seq = pos (2 ^ 63);
  consensus_time = pos 0;
}

wide_header_second :
    read_vector Name.header (
      hex
        "3033020101042000000000000000000000000000000000000000000000000000000000000000000209008000000000000000020100")
    ≡ returned (dict_of (versioned header) wide_header)
unfolding read_vector read_value
wide_header_second = refl
