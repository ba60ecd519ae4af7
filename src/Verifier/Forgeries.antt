-- ===== src/Verifier/Forgeries.antt =====
-- `derived_forgeries` of ci/verify_vectors.py, with its paths and its three kinds of forgery.
use canonical.Prelude.{◌+◌, ◌++◌, [], ◌∷◌, List, ℕ, suc, pos, if◌then◌else◌, Bytes}
use canonical.Verifier.{encode_value, parse_der}
use canonical.Verifier.Validate.{read_vector, is_exempt}
use canonical.Verifier.Outcome.{Run, returned, raised, broken, out_of_fuel, ◌>>=◌}
use canonical.Verifier.Tree.{Value, Items, int, bytes, bool, seq, nil, cons}
use canonical.Verifier.Schema.{Name, Key, same_key, Dict, Field, number, done, entry, decode_struct}
use canonical.Verifier.Encode.{encode_struct}
use canonical.Verifier.Forge.{splice}

unfoldable mutual
  -- `_seq_paths`, the list of what it yields.
  pub seq_paths : Value → List ℕ → List (List ℕ)
  seq_paths (seq xs) path = path ∷ paths_of xs 0 path
  seq_paths (int i) path = []
  seq_paths (bytes b) path = []
  seq_paths (bool b) path = []

  -- Its loop over enumerate(value[1]), from an index on.
  pub paths_of : Items → ℕ → List ℕ → List (List ℕ)
  paths_of nil i path = []
  paths_of (cons v xs) i path = seq_paths v (path ++ (i ∷ [])) ++ paths_of xs (suc i) path

-- `try: ... except SpecError: count += 1`, and the SpecError where nothing was raised.
abbrev pub expect_raised : {A : Type 0} → Run A → Run ℕ
expect_raised (returned a) = raised
expect_raised raised = returned 1
expect_raised broken = broken
expect_raised out_of_fuel = out_of_fuel

-- The loop over the paths: how many forgeries it counts.
unfoldable pub count_splices : Name → Value → List (List ℕ) → Run ℕ
unfolding splice read_vector encode_value
count_splices name tree [] = returned 0
count_splices name tree (path ∷ paths) = do
  forged ← splice tree path
  one ← expect_raised (read_vector name (encode_value forged))
  more ← count_splices name tree paths
  returned (one + more)

-- `dict(fields, Version=2)`: a field is replaced in its place, or added behind the others.
abbrev pub with_field : Key → Field → Dict → Dict
with_field key new done = entry key new done
with_field key new (entry k f o) =
    let rest = with_field key new o in if same_key k key then entry k new o else entry k f rest

-- The forgery of the version.
unfoldable pub refuse_version : Name → Value → Run ℕ
unfolding read_vector decode_struct encode_struct
refuse_version name tree = decode_struct name tree >>= λ o.
    expect_raised
      (encode_struct name (with_field Key.version (number (pos 2)) o) >>= λ b. read_vector name b)

-- It is made of a structure that has a version.
unfoldable pub count_version : Name → Value → Run ℕ
unfolding refuse_version
count_version name tree = if is_exempt name then returned 0 else refuse_version name tree

unfoldable pub derived_forgeries : Name → Value → Bytes → Run ℕ
unfolding seq_paths count_splices count_version parse_der
derived_forgeries name tree der = do
  spliced ← count_splices name tree (seq_paths tree [])
  trailing ← expect_raised (parse_der (der ++ (0xff ∷ [])))
  version ← count_version name tree
  returned (spliced + trailing + version)
