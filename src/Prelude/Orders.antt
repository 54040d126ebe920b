-- ===== src/Prelude/Orders.antt =====
-- What holds of every row, in any order and of any selection.
use mathlib.Core.Path.{◌≡◌}
use mathlib.Core.Logic.{inl, inr}
use mathlib.Core.Bool.{Bool, true}
use mathlib.Core.List.{List, [], ◌∷◌, map}
use blanco_financas_api.Prelude.Tests.{Bool-cases}
use blanco_financas_api.Prelude.Lists.{All, insert_by, sort_by, filter_by}

pub All-insert_by :
    {A : Type 0} (P : A → Type 0) (before : A → A → Bool) (x : A) (ys : List A)
    → All P (insert_by before x ys)
    → P x × All P ys
All-insert_by P before x [] a = a
All-insert_by P before x (y ∷ ys) a = elim (Bool-cases (before y x)) [
  | inl later ↦
      let b : P y × All P (insert_by before x ys) = rw later at a in
      let (first, rest) = All-insert_by P before x ys b.1 in (first, (b.0, rest))
  | inr here ↦ rw here at a
]

pub All-sort_by :
    {A : Type 0} (P : A → Type 0) (before : A → A → Bool) (xs : List A)
    → All P (sort_by before xs)
    → All P xs
All-sort_by P before [] a = tt
All-sort_by P before (x ∷ xs) a =
    let (first, rest) = All-insert_by P before x (sort_by before xs) a in
    (first, All-sort_by P before xs rest)

pub insert_by-All :
    {A : Type 0} (P : A → Type 0) (before : A → A → Bool) (x : A) (ys : List A)
    → P x
    → All P ys
    → All P (insert_by before x ys)
insert_by-All P before x [] p a = (p, a)
insert_by-All P before x (y ∷ ys) p a = elim (Bool-cases (before y x)) [
  | inl later ↦ rw later (a.0, insert_by-All P before x ys p a.1)
  | inr here ↦ rw here (p, a)
]

pub sort_by-All :
    {A : Type 0} (P : A → Type 0) (before : A → A → Bool) (xs : List A)
    → All P xs
    → All P (sort_by before xs)
sort_by-All P before [] a = tt
sort_by-All P before (x ∷ xs) a =
    insert_by-All P before x (sort_by before xs) a.0 (sort_by-All P before xs a.1)

pub All-both :
    {A : Type 0} {P Q R : A → Type 0} (xs : List A)
    → ((x : A) → P x → Q x → R x)
    → All P xs
    → All Q xs
    → All R xs
All-both [] f p q = tt
All-both (x ∷ xs) f p q = (f x p.0 q.0, All-both xs f p.1 q.1)

pub filter_by-All :
    {A : Type 0} {P Q : A → Type 0} (test : A → Bool) (xs : List A)
    → ((x : A) → P x → test x ≡ true → Q x)
    → All P xs
    → All Q (filter_by test xs)
filter_by-All test [] f p = tt
filter_by-All test (x ∷ xs) f p = elim (Bool-cases (test x)) [
  | inl passes ↦ rw passes (f x p.0 passes, filter_by-All test xs f p.1)
  | inr fails ↦ rw fails (filter_by-All test xs f p.1)
]

pub map-All :
    {A B : Type 0} (P : B → Type 0) (f : A → B) (xs : List A)
    → All (λ x. P (f x)) xs
    → All P (map f xs)
map-All P f [] a = tt
map-All P f (x ∷ xs) a = (a.0, map-All P f xs a.1)
