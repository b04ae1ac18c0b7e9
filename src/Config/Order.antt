-- ===== src/Config/Order.antt =====
-- std::sort on texts: their order by characters, and the one sorted list of the same texts.
use Prim.Native.Char.{code}
use Prim.Native.String.{String as Text}
use mathlib.Core.List.{Perm}
use mathlib.Core.List.Perm
use rdma_comm_core.Prelude.{
  String, ◌≡◌, refl, Bool, true, false, List, [], ◌∷◌, ◌==◌, ltb, if◌then◌else◌, Bool-cases, inl,
  inr, All, arith,
}

-- s <= t, by the first characters that differ.
unfoldable pub le_text : String → String → Bool
le_text Text.[] t = true
le_text (Text.◌∷◌ c s) Text.[] = false
le_text (Text.◌∷◌ c s) (Text.◌∷◌ d t) =
    let rest = le_text s t in
    if ltb (code c) (code d) then true else if code c == code d then rest else false

-- A text is put before the first that it is not above.
insert : String → List String → List String
insert x [] = x ∷ []
insert x (y ∷ ys) = if le_text x y then x ∷ y ∷ ys else y ∷ insert x ys

unfoldable pub sort : List String → List String
unfolding insert
sort [] = []
sort (x ∷ xs) = insert x (sort xs)

abbrev pub IsFirst : String → List String → Type 0
IsFirst x [] = Unit
IsFirst x (y ∷ ys) = le_text x y ≡ true

-- Each text is at most the next.
abbrev pub IsSorted : List String → Type 0
IsSorted [] = Unit
IsSorted (x ∷ xs) = IsFirst x xs × IsSorted xs

le_text_total : (s t : String) → le_text s t ≡ false → le_text t s ≡ true
unfolding le_text
le_text_total Text.[] t e = cc
le_text_total (Text.◌∷◌ c s) Text.[] e = refl
le_text_total (Text.◌∷◌ c s) (Text.◌∷◌ d t) e = ground (arith, le_text_total s t)

IsFirst-insert :
    (x y : String) (ys : List String) → le_text x y ≡ false → IsFirst y ys → IsFirst y (insert x ys)
unfolding insert
IsFirst-insert x y [] e h = le_text_total x y e
IsFirst-insert x y (z ∷ zs) e h = elim (Bool-cases (le_text x z)) [
  | inl le ↦ rw (le, insert) (le_text_total x y e)
  | inr gt ↦ rw (gt, insert) h
]

insert-IsSorted : (x : String) (ys : List String) → IsSorted ys → IsSorted (insert x ys)
unfolding insert
insert-IsSorted x [] h = (tt, tt)
insert-IsSorted x (y ∷ ys) h = elim (Bool-cases (le_text x y)) [
  | inl le ↦ rw (le, insert) (le, h)
  | inr gt ↦ rw (gt, insert) (IsFirst-insert x y ys gt h.0, insert-IsSorted x ys h.1)
]

insert-perm : (x : String) (ys : List String) → Perm (insert x ys) (x ∷ ys)
unfolding insert
insert-perm x [] = Perm.refl (x ∷ [])
insert-perm x (y ∷ ys) = elim (Bool-cases (le_text x y)) [
  | inl le ↦ rw (le, insert) (Perm.refl (x ∷ y ∷ ys))
  | inr gt ↦ rw (gt, insert) (Perm.trans (Perm.cons y (insert-perm x ys)) (Perm.swap x y ys))
]

pub sort-IsSorted : (xs : List String) → IsSorted (sort xs)
unfolding sort
sort-IsSorted [] = tt
sort-IsSorted (x ∷ xs) = insert-IsSorted x (sort xs) (sort-IsSorted xs)

pub sort-perm : (xs : List String) → Perm (sort xs) xs
unfolding sort
sort-perm [] = Perm.refl []
sort-perm (x ∷ xs) = Perm.trans (insert-perm x (sort xs)) (Perm.cons x (sort-perm xs))

module _ {κ} (P : String → Type κ) where
  All-insert : (x : String) (ys : List String) → P x → All P ys → All P (insert x ys)
  unfolding insert
  All-insert x [] h hs = (h, tt)
  All-insert x (y ∷ ys) h hs = elim (Bool-cases (le_text x y)) [
    | inl le ↦ rw (le, insert) (h, hs)
    | inr gt ↦ rw (gt, insert) (hs.0, All-insert x ys h hs.1)
  ]

  pub All-sort : (xs : List String) → All P xs → All P (sort xs)
  unfolding sort
  All-sort [] h = tt
  All-sort (x ∷ xs) h = All-insert x (sort xs) h.0 (All-sort xs h.1)
