-- ===== src/Sfu/Memory.antt =====
-- Which `Consumer` objects the router's pointers may name: the invariant behind the raw pointers of
-- media-svc/sfu/Router.cpp.
pub mod Links
pub mod Unsubscribe
pub mod Silence
pub mod Remove
pub mod Subscribe
pub mod Keeps
pub mod Link
pub mod Produce
pub mod Producers
pub mod Packets
pub mod Reports
pub mod Steps
pub mod Stages
pub mod Races
use namecon.Common.{ℕ, ◌<◌, ◌≡◌, ◌≢◌, List, [], ◌∷◌, Option, some, All}
use namecon.Common.Store.{lookup}
use mathlib.Core.List.{Memᴰ}
use namecon.Sfu.Types.{Consumer, Producer}
use namecon.Sfu.State.{Router}

-- Some producer of the list has the SSRC and lists the consumer.
pub data Linked (c s : ℕ) : List Producer → Type 0 where
  here :
      {p : Producer} {ps : List Producer}
      → p.original_ssrc ≡ s
      → Memᴰ c p.consumers
      → Linked c s (p ∷ ps)
  later : {p : Producer} {ps : List Producer} → Linked c s ps → Linked c s (p ∷ ps)

-- The producers' SSRCs are not 0, and no two are equal.
abbrev pub Distinct : List Producer → Type 0
Distinct [] = Unit {0}
Distinct (p ∷ ps) =
    (p.original_ssrc ≢ 0) × All (λ p'. p'.original_ssrc ≢ p.original_ssrc) ps × Distinct ps

module _ {S D : Type 0} where
  -- Every pointer in a producer's list, in a peer's list and in the SSRC map names an object that is
  -- alive, and the object names its producer, its subscriber and its SSRC in turn.
  pub record Inv (r : Router S D) : Type 0 where
    pub linked :
        (q c s : ℕ)
        → Linked c s (r.peers q).producers
        → (k : Consumer) × (r.consumers c ≡ some k)
          × (k.publisher ≡ some q)
          × (k.publisher_ssrc ≡ s)
    pub distinct : (q : ℕ) → Distinct (r.peers q).producers
    pub owned :
        (q c : ℕ)
        → Memᴰ c (r.peers q).consumers
        → (k : Consumer) × (r.consumers c ≡ some k) × (k.subscriber ≡ some q)
    pub mapped :
        (s c : ℕ)
        → lookup s r.out_ssrcs ≡ some c
        → (k : Consumer) × (r.consumers c ≡ some k) × (k.rewritten_ssrc ≡ s)
    pub fresh : (c : ℕ) (k : Consumer) → r.consumers c ≡ some k → c < r.next
