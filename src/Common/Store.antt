-- ===== src/Common/Store.antt =====
-- Memory as functions from addresses, and maps as association lists.
use namecon.Common.{==_iff, if_cases, ◌≢◌}
use mathlib.Core.Path.{subst, ◌≡◌, refl}
use Prim.Native.Nat.{ℕ}
use mathlib.Core.Option.{Option, none, some}
use mathlib.Core.List.{List, [], ◌∷◌}
use native.Mathlib.Omega.{arith}
use namecon.Common.Tests.{◌==◌, if◌then◌else◌}

module _ {ℓ} {A : Type ℓ} where
  -- One cell overwritten.
  abbrev pub update : (ℕ → A) → ℕ → A → ℕ → A
  update f k v j = if k == j then v else f j

  -- `std::unordered_map<uint32_t, A>`: `find`, `operator[] =` and `erase`.
  unfoldable pub lookup : ℕ → List (ℕ × A) → Option A
  lookup key [] = none
  lookup key ((at_, value) ∷ rest) = if at_ == key then some value else lookup key rest

  unfoldable pub insert : ℕ → A → List (ℕ × A) → List (ℕ × A)
  insert key new [] = (key, new) ∷ []
  insert key new ((at_, value) ∷ rest) =
      if at_ == key then (at_, new) ∷ rest else (at_, value) ∷ insert key new rest

  -- Keys are distinct in a map that `insert` built; `erase` drops every entry of the key.
  unfoldable pub erase : ℕ → List (ℕ × A) → List (ℕ × A)
  erase key [] = []
  erase key ((at_, value) ∷ rest) =
      if at_ == key then erase key rest else (at_, value) ∷ erase key rest

  pub lookup-nil : (key : ℕ) → lookup key [] ≡ none
  unfolding lookup
  lookup-nil key = refl

  pub lookup-insert :
      (key s : ℕ) (new : A) (entries : List (ℕ × A))
      → lookup s (insert key new entries) ≡ (if key == s then some new else lookup s entries)
  unfolding lookup insert
  lookup-insert key s new [] = refl
  lookup-insert key s new ((at_, value) ∷ rest) = ground (arith, lookup-insert key s new rest)

  pub lookup-erase :
      (key s : ℕ) (entries : List (ℕ × A))
      → lookup s (erase key entries) ≡ (if key == s then none else lookup s entries)
  unfolding lookup erase
  lookup-erase key s [] = ground arith
  lookup-erase key s ((at_, value) ∷ rest) = ground (arith, lookup-erase key s rest)

-- A chain of steps that can fail.
infixl 5 ◌>>=◌
abbrev pub ◌>>=◌ {ℓ κ} : {A : Type ℓ} {B : Type κ} → Option A → (A → Option B) → Option B
none >>= f = none
some a >>= f = f a

module _ {ℓ} {A : Type ℓ} where
  pub update_self : (f : ℕ → A) (k : ℕ) (v : A) → update f k v k ≡ v
  update_self f k v = ground arith

  pub update-ne : (f : ℕ → A) (k : ℕ) (v : A) (j : ℕ) → k ≢ j → update f k v j ≡ f j
  update-ne f k v j h = ground arith

  -- A property of every cell after a write: of the written value at its address, of the old cells
  -- elsewhere.
  pub update_elim {κ} :
      (P : ℕ → A → Type κ) (f : ℕ → A) (k : ℕ) (v : A)
      → P k v
      → ((j : ℕ) → k ≢ j → P j (f j))
      → (j : ℕ) → P j (update f k v j)
  update_elim P f k v here there j =
      if_cases (P j) (k == j) v (f j) (λ e. subst (λ i. P i v) ((==_iff k j).0 e) here)
        (λ e. there j (λ p. ground arith))

-- A chain that ends with a result went through one.
pub bind-some {ℓ κ} :
    {A : Type ℓ} {B : Type κ} (o : Option A) (f : A → Option B) (b : B)
    → (o >>= f) ≡ some b
    → (a : A) × (o ≡ some a) × (f a ≡ some b)
bind-some none f b e = cc
bind-some (some a) f b e = (a, refl, e)
