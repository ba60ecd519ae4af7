-- ===== src/Verifier/Sound.antt =====
-- What `parse_der` of ci/verify_vectors.py reads is what `encode_value` writes.
use canonical.Prelude.{
  All-take, ◌∙◌, bytes_equal→eq, sym, true, refl, take-append-drop, length-append, false, ltb, ap,
  length-take, bytes_equal, ◌==◌, zero, if◌then◌else◌, drop, arith, [], ◌≤◌, ◌∷◌, ◌<◌, suc, ◌≡◌,
  ◌++◌, take, length, ◌≢◌, ◌*◌, ℕ, Bytes,
}
use canonical.Verifier.Tree.{
  cons, seq, tag_sequence, int, bool, tag_octet_string, tag_integer, tag_boolean, Value,
}
use canonical.Verifier.RoundTrip.{length-encode_value_pos}
use mathlib.Core.Path.{ap₂}
use canonical.Verifier.{
  read_items, encode_items, minimal_signed, long_length, encode_length, tagged, read_value,
  read_primitive, read_length, read_integer, encode_value,
}
use canonical.Verifier.Outcome.{
  raised, returned, >>=-Post, ◌>>=◌, Post-intro, Post-if, out_of_fuel, broken, Post,
}
use canonical.Verifier.Integer.{minimal_signed-read_integer}
use mathlib.Core.List.{append_assoc}
use canonical.Verifier.Length.{encode_length-read_length}
use canonical.Octets.{IsOctets}

-- What a reader returned, written, with what it left, is what it was given.
abbrev pub IsValueOf : Bytes → Value × Bytes → Type 0
IsValueOf bs (v, rest) = encode_value v ++ rest ≡ bs

read_length-ne : (bs : Bytes) → (read_length bs ≢ out_of_fuel) × (read_length bs ≢ broken)
unfolding read_length long_length
read_length-ne [] = (λ h. cc, λ h. cc)
read_length-ne (b ∷ []) = (λ h. ground arith, λ h. ground arith)
read_length-ne (b ∷ c ∷ bs) = (λ h. ground arith, λ h. ground arith)

read_length-Post :
    (bs : Bytes) → IsOctets bs → Post (λ (n, after). encode_length n ++ after ≡ bs) (read_length bs)
read_length-Post bs octets =
    Post-intro (λ (n, after). encode_length n ++ after ≡ bs) (read_length bs) (read_length-ne bs)
      (λ (n, after) h. encode_length-read_length bs n after octets h)

read_integer-ne :
    (content : Bytes) → (read_integer content ≢ out_of_fuel) × (read_integer content ≢ broken)
unfolding read_integer
read_integer-ne [] = (λ h. cc, λ h. cc)
read_integer-ne (b ∷ []) = (λ h. cc, λ h. cc)
read_integer-ne (b ∷ c ∷ cs) = (λ h. ground arith, λ h. ground arith)

int-Post :
    (content : Bytes)
    → IsOctets content
    → Post
        (λ v. encode_value v ≡ tagged tag_integer content)
        (read_integer content >>= λ i. returned (int i))
unfolding encode_value
int-Post content octets =
    >>=-Post (λ i. minimal_signed i ≡ content) (λ v. encode_value v ≡ tagged tag_integer content)
      (read_integer content) (λ i. returned (int i))
      (Post-intro (λ i. minimal_signed i ≡ content) (read_integer content) (read_integer-ne content)
        (λ i h. minimal_signed-read_integer content i octets h))
      (λ i same. ap (tagged tag_integer) same)

bool-Post :
    (content : Bytes)
    → Post
        (λ v. encode_value v ≡ tagged tag_boolean content)
        (if bytes_equal content (0x00 ∷ [])
          then returned (bool false)
          else if bytes_equal content (0xff ∷ [])
          then returned (bool true)
          else raised)
unfolding encode_value
bool-Post content =
    Post-if _ (bytes_equal content (0x00 ∷ [])) _ _
      (λ h. ap (tagged tag_boolean) (sym (bytes_equal→eq content (0x00 ∷ []) h)))
      (λ _.
        Post-if _ (bytes_equal content (0xff ∷ [])) _ _
          (λ h. ap (tagged tag_boolean) (sym (bytes_equal→eq content (0xff ∷ []) h))) (λ _. tt))

read_primitive-Post :
    (tag : ℕ) (content : Bytes)
    → IsOctets content
    → Post (λ v. encode_value v ≡ tagged tag content) (read_primitive tag content)
unfolding read_primitive encode_value
read_primitive-Post tag content octets =
    Post-if _ (tag == tag_integer) _ _
      (λ h. let t : tag ≡ tag_integer = ground arith in rw t (int-Post content octets))
      (λ _.
        Post-if _ (tag == tag_octet_string) _ _
          (λ h. let t : tag_octet_string ≡ tag = ground arith in ap (λ t. tagged t content) t)
          (λ _.
            Post-if _ (tag == tag_boolean) _ _
              (λ h. let t : tag ≡ tag_boolean = ground arith in rw t (bool-Post content))
              (λ _. tt)))

-- A tag, the length that was read, and a content as long.
tagged-take :
    (tag n : ℕ) (after bs : Bytes)
    → encode_length n ++ after ≡ bs
    → n ≤ length after
    → tagged tag (take n after) ++ drop n after ≡ tag ∷ bs
unfolding tagged
tagged-take tag n after bs same enough =
    rw (length-take n after enough, append_assoc, take-append-drop, same) refl

All-append_right : (xs ys : Bytes) → IsOctets (xs ++ ys) → IsOctets ys
All-append_right [] ys h = h
All-append_right (x ∷ xs) ys (_, h) = All-append_right xs ys h

-- The content is an octet shorter than the value at least.
content_short :
    (n : ℕ) (after bs : Bytes)
    → encode_length n ++ after ≡ bs
    → n ≤ length after
    → length (take n after) ≤ length bs
content_short n after bs same enough =
    omega (arith, length-take n after enough, ap length same, length-append (encode_length n) after)

mutual
  unfolding read_value encode_value

  pub read_value-Post :
      (fuel : ℕ) (bs : Bytes)
      → 2 * length bs < fuel
      → IsOctets bs
      → Post (IsValueOf bs) (read_value fuel bs)
  read_value-Post zero bs enough octets = absurd (omega arith)
  read_value-Post (suc fuel) [] enough octets = tt
  read_value-Post (suc fuel) (tag ∷ bs) enough (octet, octets) =
      >>=-Post (λ (n, after). encode_length n ++ after ≡ bs) (IsValueOf (tag ∷ bs)) (read_length bs)
        _ (read_length-Post bs octets)
        (λ (n, after) same.
          let behind : IsOctets after = All-append_right (encode_length n) after (rw same octets) in
          Post-if (IsValueOf (tag ∷ bs)) (ltb (length after) n) _ _ (λ _. tt)
            (λ h.
              let fits_ : n ≤ length after = ground arith in
              let framed = tagged-take tag n after bs same fits_ in
              let short = content_short n after bs same fits_ in
              Post-if (IsValueOf (tag ∷ bs)) (tag == tag_sequence) _ _
                (λ t.
                  let is : tag_sequence ≡ tag = ground arith in
                  >>=-Post (λ xs. encode_items xs ≡ take n after) (IsValueOf (tag ∷ bs))
                    (read_items fuel (take n after)) (λ xs. returned (seq xs, drop n after))
                    (read_items-Post fuel (take n after) (omega arith)
                      (All-take (λ b. b < 256) n after behind))
                    (λ xs inside. ap₂ (λ t c. tagged t c ++ drop n after) is inside ∙ framed))
                (λ _.
                  >>=-Post (λ v. encode_value v ≡ tagged tag (take n after)) (IsValueOf (tag ∷ bs))
                    (read_primitive tag (take n after)) (λ v. returned (v, drop n after))
                    (read_primitive-Post tag (take n after)
                      (All-take (λ b. b < 256) n after behind))
                    (λ v inside. ap (λ c. c ++ drop n after) inside ∙ framed))))

  read_items-Post :
      (fuel : ℕ) (bs : Bytes)
      → suc (2 * length bs) < fuel
      → IsOctets bs
      → Post (λ xs. encode_items xs ≡ bs) (read_items fuel bs)
  read_items-Post zero bs enough octets = absurd (omega arith)
  read_items-Post (suc fuel) [] enough octets = refl
  read_items-Post (suc fuel) (b ∷ bs) enough octets =
      >>=-Post (IsValueOf (b ∷ bs)) (λ xs. encode_items xs ≡ b ∷ bs) (read_value fuel (b ∷ bs)) _
        (read_value-Post fuel (b ∷ bs) (omega arith) octets)
        (λ (v, rest) same.
          let shorter : length rest ≤ length bs = omega (
            arith,
            length-encode_value_pos v,
            ap length same,
            length-append (encode_value v) rest,
          ) in
          >>=-Post (λ xs. encode_items xs ≡ rest) (λ xs. encode_items xs ≡ b ∷ bs)
            (read_items fuel rest) (λ xs. returned (cons v xs))
            (read_items-Post fuel rest (omega arith)
              (All-append_right (encode_value v) rest (rw same octets)))
            (λ xs more. ap (λ c. encode_value v ++ c) more ∙ same))
