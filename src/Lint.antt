-- ===== src/Lint.antt =====
-- lint/determinism/analyzer.go: the analyzer that reports what makes a replica's output depend on
-- something other than its input.
mod Input
pub mod Strings
pub mod Directives
pub mod Keys
pub mod Ranges
pub mod Calls
pub mod Run
use canonical.Lint.Input.{Pass}
pub use Input.*
unfoldable pub use Input.{underlying, unparen}
use canonical.Prelude.{
  ◌+◌, ◌==◌, length, ◌||◌, not, digits, ◌∷◌, true, some, none, if◌then◌else◌, false, [], ◌++◌,
  codes, bytes_equal, Option, List, Bool, ℕ,
}
use canonical.Lint.Strings.{has_prefix, trim_prefix, trim_space}

-- A map from keys to true, as the keys that were stored.
unfoldable pub contains : List Text → Text → Bool
unfolding bytes_equal
contains [] k = false
contains (x ∷ xs) k = bytes_equal x k || contains xs k

abbrev pub detpath_default : Text
detpath_default = codes "(^|/)det(/|$)"

abbrev pub banned_calls : List Text
banned_calls =
    codes "google.golang.org/protobuf/proto.Marshal"
    ∷ codes "encoding/json.Marshal"
    ∷ codes "encoding/json.MarshalIndent"
    ∷ codes "encoding/gob.NewEncoder"
    ∷ []

abbrev pub hash_pkgs : List Text
hash_pkgs =
    codes "crypto/sha256"
    ∷ codes "crypto/sha512"
    ∷ codes "crypto/sha3"
    ∷ codes "crypto/sha1"
    ∷ codes "crypto/md5"
    ∷ codes "crypto/hmac"
    ∷ codes "hash"
    ∷ []

abbrev pub directive : Text
directive = codes "determinism:allow"

-- fmt.Sprintf("%s:%d", file, line)
unfoldable pub key : Text → ℕ → Text
key file line = file ++ (b':' ∷ digits line)

abbrev pub key_at : Position → Text
key_at p = key p.filename p.line

-- The body of the loops of `allowed`; `out` holds the keys that are set.
unfoldable pub allow_comment : (ℕ → Position) → Comment → List Text → List Text
allow_comment position c out =
    let txt = trim_space (trim_prefix c.text (codes "//")) in
    let at = position c.at in
    if not (has_prefix txt directive)
    then out
    else if length (trim_space (trim_prefix txt directive)) == 0
    then out
    else key at.filename (at.line + 1) ∷ key_at at ∷ out

-- `for _, x := range xs`, where the body updates `out`.
unfoldable pub each {ℓ} :
    {A : Type ℓ} → (A → List Text → List Text) → List A → List Text → List Text
each body [] out = out
each body (x ∷ xs) out = each body xs (body x out)

unfoldable pub allowed : Pass → List Text
unfolding each allow_comment
allowed pass = each (each (each (allow_comment pass.position))) pass.files []

unfoldable pub suppressed : Pass → List Text → ℕ → Bool
suppressed pass allow pos = contains allow (key_at (pass.position pos))

unfoldable pub package_hashes : List Text → Bool
package_hashes [] = false
package_hashes (imp ∷ imports) = contains hash_pkgs imp || package_hashes imports

-- The type assertion `.(*types.Func)` on a lookup.
unfoldable pub as_func : Option Object → Option (Option Package × Text)
as_func none = none
as_func (some other_object) = none
as_func (some (func pkg name)) = some (pkg, name)

unfoldable pub called : (ℕ → Option Object) → Expr → Option (Option Package × Text)
unfolding as_func
called uses (ident x) = as_func (uses x)
called uses (selector e x) = as_func (uses x)
called uses (paren e) = none
called uses (other_expr n) = none

unfoldable pub callee_func : Pass → Expr → Option (Option Package × Text)
unfolding called
callee_func pass fun = called pass.uses (unparen fun)

abbrev pub range_message : Text
range_message = codes "range over map is unordered; collect keys, slices.Sort, then iterate"

abbrev pub call_message : Package → Text → Text
call_message pkg name =
    pkg.name
    ++ (b'.'
        ∷ (name ++ codes " in a package that hashes: encode through the canonical package instead"))

abbrev pub is_map : GoType → Bool
is_map map_type = true
is_map other_type = false
is_map (named t) = false

-- The rule for a range over an expression of a type that is known; `none` is a return with nothing
-- reported.
unfoldable pub typed_rule : Pass → List Text → ℕ → Option GoType → Option Diagnostic
typed_rule pass allow pos none = none
typed_rule pass allow pos (some t) =
    if is_map (underlying t)
    then if suppressed pass allow pos
      then none
      else some (record { pos = pos; message = range_message })
    else none

unfoldable pub range_rule : Pass → List Text → Node → Option Diagnostic
range_rule pass allow (range_stmt none x pos) = none
range_rule pass allow (range_stmt (some k) x pos) = typed_rule pass allow pos (pass.type_of x)
range_rule pass allow (call_expr fun pos) = none
range_rule pass allow other_node = none

-- The rule for the call of a function that is resolved.
unfoldable pub resolved_rule :
    Pass → List Text → ℕ → Option (Option Package × Text) → Option Diagnostic
resolved_rule pass allow pos none = none
resolved_rule pass allow pos (some (none, name)) = none
resolved_rule pass allow pos (some (some pkg, name)) =
    if not (contains banned_calls (pkg.path ++ (b'.' ∷ name)))
    then none
    else if suppressed pass allow pos
    then none
    else some (record { pos = pos; message = call_message pkg name })

unfoldable pub call_rule : Pass → List Text → Node → Option Diagnostic
call_rule pass allow (range_stmt k x pos) = none
call_rule pass allow (call_expr fun pos) = resolved_rule pass allow pos (callee_func pass fun)
call_rule pass allow other_node = none

abbrev pub reported : Option Diagnostic → List Diagnostic → List Diagnostic
reported none ds = ds
reported (some d) ds = d ∷ ds

-- The inspector calls the rule on each node, in order.
unfoldable pub preorder : (Node → Option Diagnostic) → List Node → List Diagnostic
preorder rule [] = []
preorder rule (n ∷ nodes) = reported (rule n) (preorder rule nodes)

unfoldable pub check_map_range : Pass → List Text → List Diagnostic
check_map_range pass allow = preorder (range_rule pass allow) pass.nodes

unfoldable pub check_marshal : Pass → List Text → List Diagnostic
check_marshal pass allow = preorder (call_rule pass allow) pass.nodes

-- The error for a -detpath that is no regular expression.
pub data RunError : Type 0 where
  bad_detpath : Text → RunError

-- `run` from the test of the compiled flag on; `calls` is what was reported before.
unfoldable pub run_core :
    Text
    → Pass
    → List Text
    → List Diagnostic
    → Option (Text → Bool)
    → List Diagnostic × Option RunError
run_core detpath pass allow calls none = (calls, some (bad_detpath detpath))
run_core detpath pass allow calls (some core) =
    (calls ++ (if core pass.pkg_path then check_map_range pass allow else []), none)

-- `compile` is regexp.Compile, with MatchString of what it returns; `detpath` is the flag. The result
-- is what was reported, and the error, if any.
unfoldable pub run : (Text → Option (Text → Bool)) → Text → Pass → List Diagnostic × Option RunError
run compile detpath pass =
    let allow = allowed pass in
    let calls = if package_hashes pass.imports then check_marshal pass allow else [] in
    run_core detpath pass allow calls (compile detpath)
