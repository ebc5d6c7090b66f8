-- ===== src/Vector/Examples/Values.antt =====
-- Numbers and a queue that meet the laws of the parameters.
use Prim.Native.Nat.{ℕ}
use mathlib.Core.Bool.{Bool-set}
use mathlib.Core.Logic.Or
use mathlib.Core.List.{Mem, Perm, mem-cons, not-mem-nil}
use mathlib.Core.List.Perm
use odyssey_tasks.Prelude.{
  ◌+◌, ◌-◌, ◌*◌, ◌/◌, ◌≡◌, refl, min, max, false, Option, none, some, List, [], ◌∷◌, length, ltb,
  if◌then◌else◌, arith, Bool-cases, inl, inr,
}
use odyssey_tasks.Vector.Float.{Float, IsOrdered, IsExact}
use odyssey_tasks.Vector.Index.{SearchResult, closer, PriorityQueue}

-- Numbers without sign or fraction, whose difference is the distance.
abbrev pub whole : Float
whole = record {
  carrier = ℕ;
  of_nat = λ n. n;
  largest = 1000000;
  add = λ a b. a + b;
  sub = λ a b. max a b - min a b;
  mul = λ a b. a * b;
  div = λ a b. a / b;
  fused = λ a b c. a * b + c;
  less = ltb;
}

pub whole-IsOrdered : IsOrdered whole
whole-IsOrdered = record {
  less_irreflexive = λ a. ground arith;
  not_less_trans = λ a b c h k. ground arith;
  less-not_less = λ a b h. ground arith;
  add_monotone = λ a b c d h k. ground arith;
}

pub whole-IsExact : IsExact whole
whole-IsExact = record {
  add-nat = λ a b h. refl;
  mul-nat = λ a b ha hb h. refl;
  fused-nat = λ a b c ha hb h. refl;
  square-nat = λ a b ha hb h. refl;
  fused_square-nat = λ a b c ha hb h. refl;
}

-- A queue as a list in no order, searched for the farthest element.
abbrev pub Item : Type 0
Item = SearchResult whole

abbrev pub farther_of : Item → Item × List Item → Item × List Item
farther_of x (y, rest) = if closer whole y x then (x, y ∷ rest) else (y, x ∷ rest)

unfoldable pub take_farthest : Item → List Item → Item × List Item
take_farthest x [] = (x, [])
take_farthest x (y ∷ ys) = farther_of x (take_farthest y ys)

take_farthest-perm :
    (x : Item) (xs : List Item) → Perm (x ∷ xs) ((take_farthest x xs).0 ∷ (take_farthest x xs).1)
unfolding take_farthest
take_farthest-perm x [] = Perm.refl (x ∷ [])
take_farthest-perm x (y ∷ ys) =
    let (far, rest) = take_farthest y ys in
    let kept = Perm.cons x (take_farthest-perm y ys) in
    elim (Bool-cases (closer whole far x)) [
      | inl below ↦ rw below kept
      | inr above ↦ rw above (Perm.trans kept (Perm.swap far x rest))
    ]

take_farthest_lem :
    (x : Item) (xs : List Item) (z : Item)
    → Mem z (x ∷ xs)
    → closer whole (take_farthest x xs).0 z ≡ false
unfolding take_farthest
take_farthest_lem x [] z m =
    Or.elim (Bool-set _ _) (mem-cons.0 m)
      (λ same. rw same (whole-IsOrdered.less_irreflexive x.distance))
      (λ none_left. absurd (not-mem-nil none_left))
take_farthest_lem x (y ∷ ys) z m =
    let (far, rest) = take_farthest y ys in
    let others : (w : Item) → Mem w (y ∷ ys) → closer whole far w ≡ false =
      take_farthest_lem y ys in
    elim (Bool-cases (closer whole far x)) [
      | inl below ↦ rw below (
          Or.elim (Bool-set _ _) (mem-cons.0 m)
            (λ same. rw same (whole-IsOrdered.less_irreflexive x.distance))
            (λ n. ground (arith, others z n)))
      | inr above ↦
          rw above (Or.elim (Bool-set _ _) (mem-cons.0 m) (λ same. rw same above) (others z))
    ]

unfoldable pub extract_items : List Item → Option (Item × List Item)
extract_items [] = none
extract_items (x ∷ xs) = some (take_farthest x xs)

pub extract_items-none : (xs : List Item) → extract_items xs ≡ none → xs ≡ []
unfolding extract_items
extract_items-none [] e = refl
extract_items-none (x ∷ xs) e = cc

pub extract_items-perm :
    (xs rest : List Item) (far : Item) → extract_items xs ≡ some (far, rest) → Perm xs (far ∷ rest)
unfolding extract_items
extract_items-perm [] rest far e = cc
extract_items-perm (x ∷ xs) rest far e =
    let first : (take_farthest x xs).0 ≡ far = cc in
    let others : (take_farthest x xs).1 ≡ rest = cc in
    rw (first, others) at (take_farthest-perm x xs)

pub extract_items_farthest :
    (xs rest : List Item) (far z : Item)
    → extract_items xs ≡ some (far, rest)
    → Mem z xs
    → closer whole far z ≡ false
unfolding extract_items
extract_items_farthest [] rest far z e m = cc
extract_items_farthest (x ∷ xs) rest far z e m =
    let first : (take_farthest x xs).0 ≡ far = cc in rw first at (take_farthest_lem x xs z m)

abbrev pub list_queue : PriorityQueue whole
list_queue = record {
  Queue = List Item;
  items = λ q. q;
  empty = [];
  push = λ x q. x ∷ q;
  size = λ q. length q;
  extract = extract_items;
  items-empty = refl;
  size-items = λ q. refl;
  items-push = λ x q. Perm.refl (x ∷ q);
  extract-none = extract_items-none;
  items-extract = λ q q' x e. extract_items-perm q q' x e;
  extract_farthest = λ q q' x y e m. extract_items_farthest q q' x y e m;
}
