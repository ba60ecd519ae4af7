-- ===== src/Lint/Directives.antt =====
-- Which lines a directive covers: `allowed`, `suppressed` and `key` of analyzer.go.
use canonical.Lint.Keys.{key-injective, contains-cons}
use canonical.Prelude.{
  Any-iff, ◌∙◌, sym, ◌⊎◌, ◌+◌, if◌then◌else◌, length-ne-zero, length-eq-zero, ◌≢◌, inr, inl,
  Bool-cases, ◌==◌, length, arith, [], Any, ◌∷◌, ◌↔◌, not, ◌++◌, ◌&&◌, true, ◌≡◌, codes, List, Bool,
  ℕ,
}
use canonical.Lint.{
  Pass, allowed, suppressed, File, key_at, each, Comment, allow_comment, Position, directive, key,
  contains, Text,
}
use mathlib.Core.Bool.{false≢true}
use mathlib.Core.Path.{ap₂}
use canonical.Lint.Strings.{
  trim_prefix-append, append-trim_prefix, trim_space_ink, has_prefix-append, HasInk, has_prefix,
  trim_space, trim_prefix,
}

-- The two tests of the loop on a trimmed text, for the directive `p`.
abbrev passes : Text → Text → Bool
passes p txt = has_prefix txt p && not (length (trim_space (trim_prefix txt p)) == 0)

passes→ink :
    (p txt : Text)
    → passes p txt ≡ true
    → (txt ≡ p ++ trim_prefix txt p) × HasInk (trim_prefix txt p)
passes→ink p txt h = (
  append-trim_prefix txt p (ground arith),
  (trim_space_ink (trim_prefix txt p)).0
      (length-ne-zero (trim_space (trim_prefix txt p)) (ground arith)),
)

ink→passes : (p reason : Text) → HasInk reason → passes p (p ++ reason) ≡ true
ink→passes p reason ink =
    let nonempty : length (trim_space reason) ≢ 0 =
      λ e. (trim_space_ink reason).1 ink (length-eq-zero (trim_space reason) e) in
    rw (has_prefix-append p reason, trim_prefix-append p reason) (ground arith)

-- A comment that is a directive and gives a reason.
pub record IsDirective (text : Text) : Type 0 where
  pub reason : Text
  pub shape : trim_space (trim_prefix text (codes "//")) ≡ directive ++ reason
  pub reasoned : HasInk reason

passes_iff :
    (c : Text) → (passes directive (trim_space (trim_prefix c (codes "//"))) ≡ true) ↔ IsDirective c
passes_iff c = (
  λ h.
      let (split, ink) = passes→ink directive (trim_space (trim_prefix c (codes "//"))) h in
      record { reason = _; shape = split; reasoned = ink },
  λ d. rw d.shape (ink→passes directive d.reason d.reasoned),
)

-- What a comment at `at` sets: the keys of its line and of the next.
abbrev Marks : (ℕ → Position) → Text → Comment → Type 0
Marks position k c =
    IsDirective c.text
    × ((key (position c.at).filename ((position c.at).line + 1) ≡ k) ⊎ (key_at (position c.at) ≡ k))

allow_comment_passed :
    (position : ℕ → Position) (c : Comment) (out : List Text)
    → allow_comment position c out ≡ (
        if passes directive (trim_space (trim_prefix c.text (codes "//")))
        then key (position c.at).filename ((position c.at).line + 1) ∷ key_at (position c.at) ∷ out
        else out)
unfolding allow_comment
allow_comment_passed position c out = ground arith

module _ (position : ℕ → Position) (k : Text) where
  -- The case of a directive, and that of any other comment.
  marked_iff :
      (c : Comment) (out : List Text)
      → IsDirective c.text
      → (contains
            (key (position c.at).filename ((position c.at).line + 1) ∷ key_at (position c.at) ∷ out)
            k
          ≡ true)
        ↔ (Marks position k c ⊎ (contains out k ≡ true))
  marked_iff c out good =
      let next =
        contains-cons (key (position c.at).filename ((position c.at).line + 1))
          (key_at (position c.at) ∷ out) k in
      let same = contains-cons (key_at (position c.at)) out k in
      (
        λ h. elim (next.0 h) [
          | inl here ↦ inl (good, inl here)
          | inr more ↦ elim (same.0 more) [ inl here ↦ inl (good, inr here) | inr old ↦ inr old ]
        ],
        λ h. elim h [
          | inl (_, inl here) ↦ next.1 (inl here)
          | inl (_, inr here) ↦ next.1 (inr (same.1 (inl here)))
          | inr old ↦ next.1 (inr (same.1 (inr old)))
        ],
      )

  allow_comment_iff :
      (c : Comment) (out : List Text)
      → (contains (allow_comment position c out) k ≡ true)
        ↔ (Marks position k c ⊎ (contains out k ≡ true))
  allow_comment_iff c out =
      elim (Bool-cases (passes directive (trim_space (trim_prefix c.text (codes "//"))))) [
        | inl good ↦
            rw (allow_comment_passed position c out, good)
              (marked_iff c out ((passes_iff c.text).0 good))
        | inr bad ↦
            rw (allow_comment_passed position c out, bad)
              (
                λ h. inr h,
                λ h. elim h [
                  | inl (good, _) ↦ absurd (false≢true (sym bad ∙ (passes_iff c.text).1 good))
                  | inr old ↦ old
                ],
              )
      ]

  -- A loop sets what its rounds set.
  each_iff {ℓ} :
      {A : Type ℓ} (body : A → List Text → List Text) (P : A → Type 0)
      → ((x : A) (out : List Text)
          → (contains (body x out) k ≡ true) ↔ (P x ⊎ (contains out k ≡ true)))
      → (xs : List A) (out : List Text)
      → (contains (each body xs out) k ≡ true) ↔ (Any P xs ⊎ (contains out k ≡ true))
  unfolding each
  each_iff body P one [] out =
      (λ h. inr h, λ h. elim h [ inl none_left ↦ absurd none_left | inr old ↦ old ])
  each_iff body P one (x ∷ xs) out =
      let ih = each_iff body P one xs (body x out) in
      (
        λ h. elim (ih.0 h) [
          | inl later ↦ inl (inr later)
          | inr now ↦ elim ((one x out).0 now) [ inl here ↦ inl (inl here) | inr old ↦ inr old ]
        ],
        λ h. elim h [
          | inl (inl here) ↦ ih.1 (inr ((one x out).1 (inl here)))
          | inl (inr later) ↦ ih.1 (inl later)
          | inr old ↦ ih.1 (inr ((one x out).1 (inr old)))
        ],
      )

  allowed_iff :
      (files : List File)
      → (contains (each (each (each (allow_comment position))) files []) k ≡ true)
        ↔ Any (Any (Any (Marks position k))) files
  allowed_iff files =
      let loop =
        each_iff (each (each (allow_comment position))) (Any (Any (Marks position k)))
          (each_iff (each (allow_comment position)) (Any (Marks position k))
            (each_iff (allow_comment position) (Marks position k) allow_comment_iff))
          files [] in
      (
        λ h. elim (loop.0 h) [ inl found ↦ found | inr old ↦ unfold contains in cc ],
        λ found. loop.1 (inl found),
      )

-- The line of a directive, or the line below it.
pub record Covers (position : ℕ → Position) (p : Position) (c : Comment) : Type 0 where
  pub directive_given : IsDirective c.text
  pub same_file : (position c.at).filename ≡ p.filename
  pub near : (p.line ≡ (position c.at).line) ⊎ (p.line ≡ (position c.at).line + 1)

Covers-iff :
    (position : ℕ → Position) (p : Position) (c : Comment)
    → Marks position (key_at p) c ↔ Covers position p c
Covers-iff position p c = (
  λ (good, at). elim at [
    | inl below ↦
        let (files, lines) = key-injective _ _ _ _ below in
        record { directive_given = good; same_file = files; near = inr (sym lines) }
    | inr same ↦
        let (files, lines) = key-injective _ _ _ _ same in
        record { directive_given = good; same_file = files; near = inl (sym lines) }
  ],
  λ h. elim h.near [
    | inl same ↦ (h.directive_given, inr (ap₂ key h.same_file (sym same)))
    | inr next ↦ (h.directive_given, inl (ap₂ key h.same_file (sym next)))
  ],
)

-- A position is suppressed by what `allowed` collects exactly when some comment of the pass
-- stands in the same file, on the position's line or on the line above, and is a directive with a
-- reason: behind an optional `//` and spaces it starts with `determinism:allow`, and what follows
-- is not all spaces.
pub suppressed_iff :
    (pass : Pass) (pos : ℕ)
    → (suppressed pass (allowed pass) pos ≡ true)
      ↔ Any (Any (Any (Covers pass.position (pass.position pos)))) pass.files
unfolding suppressed allowed
suppressed_iff pass pos =
    let p : Position = pass.position pos in
    let (to, from) = allowed_iff pass.position (key_at p) pass.files in
    let (covers, marks) =
      Any-iff (Any (Any (Marks pass.position (key_at p)))) (Any (Any (Covers pass.position p)))
        (Any-iff (Any (Marks pass.position (key_at p))) (Any (Covers pass.position p)) (
          Any-iff (Marks pass.position (key_at p)) (Covers pass.position p)
            (Covers-iff pass.position p)))
        pass.files in
    (λ h. covers (to h), λ h. from (marks h))
