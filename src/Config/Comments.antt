-- ===== src/Config/Comments.antt =====
-- A header with a comment.
use namecon.Common.{
  true, ◌==◌, ◌||◌, ℕ, ◌≡◌, ◌≢◌, refl, sym, ap, ◌∙◌, false, [], ◌∷◌, ◌++◌, none, arith, All,
}
use mathlib.Core.List.{append_assoc}
use namecon.Common.Bytes.{Bytes}
use namecon.Config.{
  is_edge, trim, trim_left, trim_right, keep_edge, cut_comment, bracketed, split_eq, Loading,
  load_line,
}
use namecon.Config.Trim.{NoComment, NoComment-append, last_is-snoc, cut_comment_at}

keep_edge-append :
    (c : ℕ) (s : Bytes) (d : ℕ) (rest : Bytes) → keep_edge c (s ++ d ∷ rest) ≡ c ∷ (s ++ d ∷ rest)
keep_edge-append c [] d rest = refl
keep_edge-append c (e ∷ s) d rest = refl

keep_edge_plain : (c : ℕ) (s : Bytes) → is_edge c ≡ false → keep_edge c s ≡ c ∷ s
keep_edge_plain c [] h = rw h
keep_edge_plain c (d ∷ s) h = refl

trim_right-append :
    (s : Bytes) (d : ℕ) (rest : Bytes)
    → is_edge d ≡ false
    → trim_right (s ++ d ∷ rest) ≡ s ++ d ∷ trim_right rest
unfolding trim_right
trim_right-append [] d rest h = keep_edge_plain d (trim_right rest) h
trim_right-append (c ∷ s) d rest h =
    rw (trim_right-append s d rest h) (keep_edge-append c s d (trim_right rest))

split_eq-none : (s : Bytes) → All (λ c. c ≢ 61) s → split_eq s ≡ none
unfolding split_eq
split_eq-none [] h = refl
split_eq-none (c ∷ s) h = ground (arith, split_eq-none s h.1)

NoEq-append : (a b : Bytes) → All (λ c. c ≢ 61) a → All (λ c. c ≢ 61) b → All (λ c. c ≢ 61) (a ++ b)
NoEq-append [] b ha hb = hb
NoEq-append (c ∷ a) b ha hb = (ha.0, NoEq-append a b ha.1 hb)

-- `[name] #comment`, or with `;` for the sign.
abbrev pub commented_header : ℕ → Bytes → Bytes → Bytes
commented_header sign name comment = ((91 ∷ name) ++ 93 ∷ 32 ∷ []) ++ sign ∷ comment

trim-commented_header :
    (sign : ℕ) (name comment : Bytes)
    → (sign == 35 || sign == 59) ≡ true
    → NoComment name
    → trim (commented_header sign name comment) ≡ (91 ∷ (name ++ 93 ∷ [])) ++ 32 ∷ []
unfolding trim trim_left
trim-commented_header sign name comment is_sign plain =
    let before = (91 ∷ name) ++ 93 ∷ 32 ∷ [] in
    ap cut_comment (trim_right-append before sign comment (ground arith))
    ∙ cut_comment_at sign before (trim_right comment) is_sign
        (refl, NoComment-append name (93 ∷ 32 ∷ []) plain (refl, (refl, tt)))
    ∙ sym (append_assoc (91 ∷ name) (93 ∷ []) (32 ∷ []))

-- A section's header with one space and a comment behind it, which starts with `#` or `;`, and a
-- name without these signs and without `=`, changes nothing: the section stays the one before, and
-- the keys below the header go to it.
pub commented_header_ignored :
    (sign : ℕ) (name comment : Bytes) (st : Loading)
    → (sign == 35 || sign == 59) ≡ true
    → NoComment name
    → All (λ c. c ≢ 61) name
    → load_line (commented_header sign name comment) st ≡ st
unfolding load_line bracketed
commented_header_ignored sign name comment st is_sign plain no_eq =
    let none_ = split_eq-none ((91 ∷ (name ++ 93 ∷ [])) ++ 32 ∷ []) (
      NoEq-append (91 ∷ (name ++ 93 ∷ [])) (32 ∷ []) (cc, NoEq-append name (93 ∷ []) no_eq (cc, tt))
        (cc, tt)) in
    rw (
      trim-commented_header sign name comment is_sign plain,
      last_is-snoc 93 (91 ∷ (name ++ 93 ∷ [])) 32,
      none_,
    )
