-- ===== src/Sdp/PtList.antt =====
-- The payload types of an m= line.
use namecon.Common.{
  ◌^◌, ℕ, zero, suc, ◌+◌, ◌<◌, ◌≤◌, ◌%◌, ◌^◌, ◌/◌, ◌≡◌, ◌≢◌, refl, sym, ap, ◌∙◌, Bool, true, false,
  ◌||◌, List, [], ◌∷◌, Option, none, some, ◌==◌, arith, All, length,
}
use mathlib.Core.Path.{subst}
use namecon.Common.Bytes.{Bytes}
use namecon.Common.Text.{ascii, bytes_eq, read_int, skip_space, digits_onto, to_uint8, decimal_onto}
use namecon.Common.Text.Decimal.{read_int-decimal}
use namecon.Sdp.Types.{SdpParser, Payloads}
use namecon.Sdp.{add_pt, add_pts, insert_pt, start_section}
use namecon.Sdp.Sections.{IsWord, media_section-words, media_text}

-- What a list of payload types adds to a set.
unfoldable pub among : ℕ → List ℕ → Bool
among pt [] = false
among pt (n ∷ ns) = (pt == n % 256) || among pt ns

-- Payload types, each with a space before it.
unfoldable pub spaced : List ℕ → Bytes
spaced [] = []
spaced (n ∷ ns) = 32 ∷ decimal_onto 10 n (spaced ns)

-- Payload types with a space between them.
unfoldable pub print_pts : List ℕ → Bytes
print_pts [] = []
print_pts (n ∷ ns) = decimal_onto 10 n (spaced ns)

unfoldable pub add_all : Bytes → List ℕ → Payloads → Payloads
add_all type [] g = g
add_all type (n ∷ ns) g = add_all type ns (add_pt type (n % 256) g)

spaced-ends : (n : ℕ) (ns : List ℕ) → digits_onto n (spaced ns) ≡ (n, spaced ns)
unfolding spaced digits_onto
spaced-ends n [] = refl
spaced-ends n (m ∷ ns) = refl

read_pt :
    (n : ℕ) (ns : List ℕ)
    → n < 2 ^ 31
    → read_int (decimal_onto 10 n (spaced ns)) ≡ some (false, n, spaced ns)
read_pt n ns h = read_int-decimal n (spaced ns) h (spaced-ends n ns)

read_int-space : (text : Bytes) → read_int (32 ∷ text) ≡ read_int text
unfolding read_int skip_space
read_int-space text = refl

-- One round of the loop, and the last one.
abbrev round : ℕ → Bytes → Payloads → Option (Bool × ℕ × Bytes) → Payloads
round fuel type g none = g
round fuel type g (some (negative, n, rest)) =
    add_pts fuel type rest (add_pt type (to_uint8 negative n) g)

add_pts-round :
    (fuel : ℕ) (type text : Bytes) (g : Payloads)
    → add_pts (suc fuel) type text g ≡ round fuel type g (read_int text)
unfolding add_pts
add_pts-round fuel type text g =
    elim (read_int text)
      as (λ o.
        elim o [
          | none ↦ g
          | some (negative, n, rest) ↦ add_pts fuel type rest (add_pt type (to_uint8 negative n) g)
        ]
        ≡ round fuel type g o) [ none ↦ refl | some (negative, n, rest) ↦ refl ]

to_uint8-pos : (n : ℕ) → to_uint8 false n ≡ n % 256
to_uint8-pos n = refl

add_pts-nil : (fuel : ℕ) (type : Bytes) (g : Payloads) → add_pts (suc fuel) type [] g ≡ g
unfolding read_int skip_space
add_pts-nil fuel type g = add_pts-round fuel type [] g

add_pts-spaced :
    (fuel : ℕ) (type : Bytes) (ns : List ℕ) (g : Payloads)
    → All (λ n. n < 2 ^ 31) ns
    → length ns < fuel
    → add_pts fuel type (spaced ns) g ≡ add_all type ns g
unfolding spaced add_all
add_pts-spaced zero type ns g h enough = absurd (omega arith)
add_pts-spaced (suc fuel) type [] g h enough = add_pts-nil fuel type g
add_pts-spaced (suc fuel) type (n ∷ ns) g h enough =
    add_pts-round fuel type (32 ∷ decimal_onto 10 n (spaced ns)) g
    ∙ ap (round fuel type g) (read_int-space (decimal_onto 10 n (spaced ns)) ∙ read_pt n ns h.0)
    ∙ (ap (λ k. add_pts fuel type (spaced ns) (add_pt type k g)) (to_uint8-pos n)
        ∙ add_pts-spaced fuel type ns (add_pt type (n % 256) g) h.1 (omega arith))

add_pts-print_pts :
    (fuel : ℕ) (type : Bytes) (ns : List ℕ) (g : Payloads)
    → All (λ n. n < 2 ^ 31) ns
    → length ns < fuel
    → add_pts fuel type (print_pts ns) g ≡ add_all type ns g
unfolding print_pts add_all
add_pts-print_pts zero type ns g h enough = absurd (omega arith)
add_pts-print_pts (suc fuel) type [] g h enough = add_pts-nil fuel type g
add_pts-print_pts (suc fuel) type (n ∷ ns) g h enough =
    add_pts-round fuel type (decimal_onto 10 n (spaced ns)) g
    ∙ ap (round fuel type g) (read_pt n ns h.0)
    ∙ (ap (λ k. add_pts fuel type (spaced ns) (add_pt type k g)) (to_uint8-pos n)
        ∙ add_pts-spaced fuel type ns (add_pt type (n % 256) g) h.1 (omega arith))

length-decimal_onto : (fuel n : ℕ) (rest : Bytes) → length rest ≤ length (decimal_onto fuel n rest)
unfolding decimal_onto
length-decimal_onto zero n rest = omega arith
length-decimal_onto (suc fuel) n rest =
    ground (arith, length-decimal_onto fuel (n / 10) ((48 + n % 10) ∷ rest))

length-decimal : (n : ℕ) (rest : Bytes) → length rest < length (decimal_onto 10 n rest)
unfolding decimal_onto
length-decimal n rest = ground (arith, length-decimal_onto 9 (n / 10) ((48 + n % 10) ∷ rest))

length-spaced : (ns : List ℕ) → length ns ≤ length (spaced ns)
unfolding spaced
length-spaced [] = omega arith
length-spaced (n ∷ ns) = omega (arith, length-spaced ns, length-decimal n (spaced ns))

length-print_pts : (ns : List ℕ) → length ns ≤ length (print_pts ns)
unfolding print_pts
length-print_pts [] = omega arith
length-print_pts (n ∷ ns) = omega (arith, length-spaced ns, length-decimal n (spaced ns))

or_shuffle : (a b c : Bool) → (a || (b || c)) ≡ ((b || a) || c)
or_shuffle true true c = refl
or_shuffle true false c = refl
or_shuffle false true c = refl
or_shuffle false false c = refl

-- The list of an m= line, as the section's parse sees it.
media_pts :
    (type port proto : Bytes) (ns : List ℕ) (p : SdpParser)
    → IsWord type
    → type ≢ []
    → IsWord port
    → port ≢ []
    → IsWord proto
    → proto ≢ []
    → All (λ n. n < 2 ^ 31) ns
    → (start_section (media_text type port proto (print_pts ns)) p).shared
      ≡ add_all type ns p.shared
unfolding start_section
media_pts type port proto ns p hT nT hP nP hQ nQ h =
    rw (media_section-words type port proto (print_pts ns) hT nT hP nP hQ nQ) (
      add_pts-print_pts (suc (length (print_pts ns))) type ns p.shared h
        (omega (arith, length-print_pts ns)))

-- What a section of a type adds.
abbrev pub Added : List ℕ → Payloads → Payloads → Type 0
Added ns g g' =
    (pt : ℕ)
    → (g'.video_pts pt ≡ (among pt ns || g.video_pts pt)) × (g'.audio_pts pt ≡ g.audio_pts pt)

add_all-Added : (ns : List ℕ) (g : Payloads) → Added ns g (add_all (ascii "video") ns g)
unfolding add_all among add_pt bytes_eq insert_pt
add_all-Added [] g pt = (refl, refl)
add_all-Added (n ∷ ns) g pt =
    let (video, audio) = add_all-Added ns (add_pt (ascii "video") (n % 256) g) pt in
    (video ∙ or_shuffle (among pt ns) (pt == n % 256) (g.video_pts pt), audio)

-- An m= line of the type "video", with a port and a protocol of at least one character and without
-- white space, and payload types below 2 ^ 31 in decimal, with one space between all of these, adds
-- the payload types, each taken modulo 256, to the set of video payload types, and no others; the set
-- of audio is left as it was.
pub start_section-Added :
    (port proto : Bytes) (ns : List ℕ) (p : SdpParser)
    → IsWord port
    → port ≢ []
    → IsWord proto
    → proto ≢ []
    → All (λ n. n < 2 ^ 31) ns
    → Added ns p.shared
        (start_section (media_text (ascii "video") port proto (print_pts ns)) p).shared
start_section-Added port proto ns p hP nP hQ nQ h =
    subst (Added ns p.shared)
      (sym (
        media_pts (ascii "video") port proto ns p (refl, (refl, (refl, (refl, (refl, tt))))) (cc) hP
          nP hQ nQ h))
      (add_all-Added ns p.shared)
