-- ===== src/Verifier/Paths.antt =====
-- Every path that `_seq_paths` of ci/verify_vectors.py yields can be spliced at.
use canonical.Prelude.{
  [], ◌∷◌, ◌++◌, List, ℕ, suc, ◌+◌, ◌≡◌, refl, sym, ap, ◌∙◌, arith, All, All-append, All-map,
}
use mathlib.Core.List.{append-nil, append_assoc}
use canonical.Verifier.Outcome.{returned}
use canonical.Verifier.Tree.{Value, Items, int, bytes, bool, seq, nil, cons}
use canonical.Verifier.Forge.{splice, splice_items, add_last}
use canonical.Verifier.Forgeries.{seq_paths, paths_of}

-- A path behind `before`, at which a value can be spliced.
abbrev IsPath : Value → List ℕ → List ℕ → Type 0
IsPath v before path = (q : List ℕ) × (path ≡ before ++ q) × (w : Value) × (splice v q ≡ returned w)

abbrev IsPathFrom : Items → ℕ → List ℕ → List ℕ → Type 0
IsPathFrom xs i before path =
    (j : ℕ) × (q : List ℕ) × (path ≡ before ++ ((i + j) ∷ q))
    × (ys : Items) × (splice_items xs j q ≡ returned ys)

inside_seq :
    (xs : Items) (before path : List ℕ) → IsPathFrom xs 0 before path → IsPath (seq xs) before path
unfolding splice
inside_seq xs before path (j, q, same, ys, put) =
    let index : 0 + j ≡ j = omega arith in
    (j ∷ q, same ∙ ap (λ k. before ++ (k ∷ q)) index, seq ys, rw put)

inside_first :
    (v : Value) (xs : Items) (i : ℕ) (before path : List ℕ)
    → IsPath v (before ++ (i ∷ [])) path
    → IsPathFrom (cons v xs) i before path
unfolding splice
inside_first v xs i before path (q, same, w, put) =
    let zero_more : i ≡ i + 0 = omega arith in
    (
      0,
      q,
      same ∙ append_assoc before (i ∷ []) q ∙ ap (λ k. before ++ (k ∷ q)) zero_more,
      cons w xs,
      rw put,
    )

inside_later :
    (v : Value) (xs : Items) (i : ℕ) (before path : List ℕ)
    → IsPathFrom xs (suc i) before path
    → IsPathFrom (cons v xs) i before path
unfolding splice
inside_later v xs i before path (j, q, same, ys, put) =
    let one_more : suc i + j ≡ i + suc j = omega arith in
    (suc j, q, same ∙ ap (λ k. before ++ (k ∷ q)) one_more, cons v ys, rw put)

outermost : (xs : Items) (before : List ℕ) → IsPath (seq xs) before before
unfolding splice
outermost xs before = ([], sym (append-nil before), seq (add_last xs), refl)

mutual
  unfolding seq_paths

  seq_paths-IsPath : (v : Value) (before : List ℕ) → All (IsPath v before) (seq_paths v before)
  seq_paths-IsPath (seq xs) before =
      (outermost xs before, All-map (inside_seq xs before) _ (paths_of-IsPathFrom xs 0 before))
  seq_paths-IsPath (int i) before = tt
  seq_paths-IsPath (bytes b) before = tt
  seq_paths-IsPath (bool b) before = tt

  paths_of-IsPathFrom :
      (xs : Items) (i : ℕ) (before : List ℕ) → All (IsPathFrom xs i before) (paths_of xs i before)
  paths_of-IsPathFrom nil i before = tt
  paths_of-IsPathFrom (cons v xs) i before =
      All-append (IsPathFrom (cons v xs) i before) _ _
        (All-map (inside_first v xs i before) _ (seq_paths-IsPath v (before ++ (i ∷ []))))
        (All-map (inside_later v xs i before) _ (paths_of-IsPathFrom xs (suc i) before))

abbrev pub IsSpliced : Value → List ℕ → Type 0
IsSpliced v path = (w : Value) × (splice v path ≡ returned w)

pub seq_paths-IsSpliced : (v : Value) → All (IsSpliced v) (seq_paths v [])
seq_paths-IsSpliced v =
    All-map (λ path (q, same, w, put). (w, rw same put)) _ (seq_paths-IsPath v [])
