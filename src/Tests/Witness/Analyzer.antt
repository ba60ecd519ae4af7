-- ===== src/Tests/Witness/Analyzer.antt =====
-- The theorems about analyzer.go, at a package that hashes, marshals and ranges over a map.
use canonical.Prelude.{
  lt_wf, digits, ◌==◌, refl, if◌then◌else◌, bytes_equal, some, none, ◌↔◌, true, [], Bool, ◌≡◌, ◌∷◌,
  Option, ℕ, codes, Any,
}
use canonical.Lint.Strings.{trim_right, trim_left, is_space, trim_prefix, trim_space, has_prefix}
use canonical.Lint.{
  key, typed_rule, range_rule, each, allow_comment, underlying, unparen, as_func, called,
  callee_func, resolved_rule, call_rule, preorder, contains, package_hashes, run_core, map_type,
  named, func, range_stmt, ident, other_expr, selector, paren, call_expr, check_marshal,
  check_map_range, Object, GoType, range_message, detpath_default, allowed, Position, suppressed,
  run, Text, Pass, Expr, Diagnostic,
}
use canonical.Lint.Run.{run_iff, IsDue}
use canonical.Lint.Ranges.{check_map_range_iff, RangeFinding}
use canonical.Lint.Calls.{check_marshal_iff, CallFinding}
use canonical.Lint.Directives.{suppressed_iff, Covers}

-- Node 1 is `Marshal`, resolved through an alias; node 2 is a map of a named type.
abbrev sample_uses : ℕ → Option Object
sample_uses x =
    if x == 1
    then some (
        func
          (some (record { path = codes "google.golang.org/protobuf/proto"; name = codes "proto" }))
          (codes "Marshal"))
    else none

abbrev sample_types : Expr → Option GoType
sample_types (other_expr x) = if x == 2 then some (named map_type) else none
sample_types e = none

-- A position is its line.
abbrev sample_position : ℕ → Position
sample_position line = record { filename = codes "det/state.go"; line = line }

abbrev sample : Pass
sample = record {
  pkg_path = codes "cluster/det";
  imports = codes "fmt" ∷ codes "crypto/sha256" ∷ [];
  files =
      ((record { text = codes "// determinism:allow bytes travel verbatim"; at = 9 } ∷ []) ∷ [])
      ∷ [];
  nodes =
      call_expr (paren (selector (other_expr 0) 1)) 10
      ∷ call_expr (ident 1) 20
      ∷ range_stmt (some (ident 3)) (other_expr 2) 30
      ∷ [];
  position = sample_position;
  type_of = sample_types;
  uses = sample_uses;
}

abbrev range_finding : Diagnostic
range_finding = record { pos = 30; message = range_message }

abbrev call_finding : Diagnostic
call_finding = record {
  pos = 20;
  message =
      codes "proto.Marshal in a package that hashes: encode through the canonical package instead";
}

-- Patterns that match one path.
abbrev sample_compile : Text → Option (Text → Bool)
sample_compile pattern = some (bytes_equal (codes "cluster/det"))

sample_reported :
    run sample_compile detpath_default sample ≡ (call_finding ∷ range_finding ∷ [], none)
unfolding run run_core package_hashes contains check_marshal check_map_range preorder call_rule
    resolved_rule callee_func called as_func unparen underlying suppressed allowed allow_comment
    each range_rule typed_rule key has_prefix trim_space trim_prefix is_space trim_left trim_right
    digits bytes_equal lt_wf
sample_reported = refl

run_iff_example :
    Any (λ x. x ≡ range_finding) (run sample_compile detpath_default sample).0
    ↔ IsDue (sample_compile detpath_default) sample range_finding
run_iff_example = run_iff sample sample_compile detpath_default range_finding

check_map_range_iff_example :
    Any (λ x. x ≡ range_finding) (check_map_range sample (allowed sample))
    ↔ Any (RangeFinding sample range_finding) sample.nodes
check_map_range_iff_example = check_map_range_iff sample range_finding

check_marshal_iff_example :
    Any (λ x. x ≡ call_finding) (check_marshal sample (allowed sample))
    ↔ Any (CallFinding sample call_finding) sample.nodes
check_marshal_iff_example = check_marshal_iff sample call_finding

suppressed_iff_example :
    (suppressed sample (allowed sample) 10 ≡ true)
    ↔ Any (Any (Any (Covers sample_position (sample_position 10)))) sample.files
suppressed_iff_example = suppressed_iff sample 10
