-- ===== src/Config/Trim.antt =====
-- Trimming and quotes, on texts that they leave alone.
use namecon.Common.{true, ℕ, ◌≡◌, ◌≢◌, refl, ap, false, ◌||◌, [], ◌∷◌, ◌++◌, some, ◌==◌, arith, All}
use namecon.Common.Bytes.{Bytes}
use namecon.Config.{
  is_edge, trim_left, keep_edge, trim_right, cut_comment, trim, last_is, drop_last, unquote,
  split_eq,
}

-- No comment starts in a text, and it holds no line feed.
abbrev pub NoComment : Bytes → Type 0
NoComment s = All (λ c. (c == 35 || c == 59) ≡ false) s

-- No blank at the start, or at the end.
abbrev pub StartsPlain : Bytes → Type 0
StartsPlain [] = Unit {0}
StartsPlain (c ∷ s) = is_edge c ≡ false

pub NoComment-append : (a b : Bytes) → NoComment a → NoComment b → NoComment (a ++ b)
NoComment-append [] b ha hb = hb
NoComment-append (c ∷ a) b ha hb = (ha.0, NoComment-append a b ha.1 hb)

cut_comment_none : (s : Bytes) → NoComment s → cut_comment s ≡ s
unfolding cut_comment
cut_comment_none [] h = refl
cut_comment_none (c ∷ s) h = rw h.0 (ap (λ x. c ∷ x) (cut_comment_none s h.1))

pub cut_comment_at :
    (sign : ℕ) (s rest : Bytes)
    → (sign == 35 || sign == 59) ≡ true
    → NoComment s
    → cut_comment (s ++ sign ∷ rest) ≡ s
unfolding cut_comment
cut_comment_at sign [] rest e h = rw e refl
cut_comment_at sign (c ∷ s) rest e h = rw h.0 (ap (λ x. c ∷ x) (cut_comment_at sign s rest e h.1))

pub trim_left_plain : (s : Bytes) → StartsPlain s → trim_left s ≡ s
unfolding trim_left
trim_left_plain [] h = refl
trim_left_plain (c ∷ s) h = rw h

keep_edge-snoc : (c : ℕ) (s : Bytes) (d : ℕ) → keep_edge c (s ++ d ∷ []) ≡ c ∷ (s ++ d ∷ [])
keep_edge-snoc c [] d = refl
keep_edge-snoc c (e ∷ s) d = refl

pub trim_right-snoc :
    (s : Bytes) (d : ℕ) → is_edge d ≡ false → trim_right (s ++ d ∷ []) ≡ s ++ d ∷ []
unfolding trim_right
trim_right-snoc [] d h = rw h
trim_right-snoc (c ∷ s) d h = rw (trim_right-snoc s d h) (keep_edge-snoc c s d)

-- A text that neither starts nor ends with a blank, up to a comment in it.
pub trim_plain :
    (s : Bytes) (d : ℕ)
    → StartsPlain (s ++ d ∷ [])
    → is_edge d ≡ false
    → NoComment (s ++ d ∷ [])
    → trim (s ++ d ∷ []) ≡ s ++ d ∷ []
unfolding trim
trim_plain s d start end none_ =
    rw (trim_left_plain (s ++ d ∷ []) start, trim_right-snoc s d end)
      (cut_comment_none (s ++ d ∷ []) none_)

pub last_is-snoc : (c : ℕ) (s : Bytes) (d : ℕ) → last_is c (s ++ d ∷ []) ≡ (d == c)
unfolding last_is
last_is-snoc c [] d = refl
last_is-snoc c (e ∷ []) d = refl
last_is-snoc c (e ∷ f ∷ s) d = last_is-snoc c (f ∷ s) d

pub drop_last-snoc : (s : Bytes) (d : ℕ) → drop_last (s ++ d ∷ []) ≡ s
unfolding drop_last
drop_last-snoc [] d = refl
drop_last-snoc (c ∷ []) d = refl
drop_last-snoc (c ∷ e ∷ s) d = ap (λ x. c ∷ x) (drop_last-snoc (e ∷ s) d)

pub unquote_quoted : (v : Bytes) → unquote (34 ∷ (v ++ 34 ∷ [])) ≡ v
unfolding unquote last_is drop_last
unquote_quoted [] = refl
unquote_quoted (c ∷ v) = rw (last_is-snoc 34 (c ∷ v) 34) (drop_last-snoc (c ∷ v) 34)

pub split_eq_at : (k v : Bytes) → All (λ c. c ≢ 61) k → split_eq (k ++ 61 ∷ v) ≡ some (k, v)
unfolding split_eq
split_eq_at [] v h = refl
split_eq_at (c ∷ k) v h = ground (arith, split_eq_at k v h.1)
