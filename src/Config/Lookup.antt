-- ===== src/Config/Lookup.antt =====
-- Lookups behind writes.
use namecon.Common.{
  ◌≡◌, refl, sym, ◌∙◌, true, false, [], ◌∷◌, if◌then◌else◌, arith, Bool-cases, inl, inr,
}
use namecon.Common.Bytes.{Bytes}
use namecon.Common.Text.{bytes_eq, bytes_eq-true, bytes_eq_refl}
use namecon.Config.{SectionInfo, ConfigMgr, get, section, put_key, put}

bytes_eq-trans_false :
    (a b c : Bytes) → bytes_eq a b ≡ false → bytes_eq a c ≡ true → bytes_eq b c ≡ false
bytes_eq-trans_false a b c ab ac = elim (Bool-cases (bytes_eq b c)) [
  | inr e ↦ e
  | inl bc ↦
      let same = bytes_eq-true a c ac ∙ sym (bytes_eq-true b c bc) in
      let ab' = rw same at ab in let refl' = bytes_eq_refl b in cc
]

get-put_key :
    (key k v : Bytes) (s : SectionInfo)
    → get key (put_key k v s) ≡ (if bytes_eq k key then v else get key s)
unfolding get put_key
get-put_key key k v [] = refl
get-put_key key k v ((k', v') ∷ s) = elim (Bool-cases (bytes_eq k' k)) [
  | inl e ↦ rw (bytes_eq-true k' k e, bytes_eq_refl k) (ground arith)
  | inr e ↦ elim (Bool-cases (bytes_eq k' key)) [
    | inl e' ↦ rw (e, e', bytes_eq-trans_false k' k key e e')
    | inr e' ↦ rw (e, e') (get-put_key key k v s)
  ]
]

pub get-put :
    (name key n k v : Bytes) (m : ConfigMgr)
    → get key (section name (put n k v m)) ≡ (
        if bytes_eq n name
        then (if bytes_eq k key then v else get key (section name m))
        else get key (section name m))
unfolding section put
get-put name key n k v [] = elim (Bool-cases (bytes_eq n name)) [
  | inl e ↦ rw e (get-put_key key k v [])
  | inr e ↦ rw e
]
get-put name key n k v ((n', s) ∷ m) = elim (Bool-cases (bytes_eq n' n)) [
  | inl e ↦ elim (Bool-cases (bytes_eq n name)) [
    | inl e' ↦ rw (bytes_eq-true n' n e, bytes_eq_refl n, e') (get-put_key key k v s)
    | inr e' ↦ rw (bytes_eq-true n' n e, bytes_eq_refl n, e')
  ]
  | inr e ↦ elim (Bool-cases (bytes_eq n' name)) [
    | inl e' ↦ rw (e, e', bytes_eq-trans_false n' n name e e')
    | inr e' ↦ rw (e, e') (get-put name key n k v m)
  ]
]
