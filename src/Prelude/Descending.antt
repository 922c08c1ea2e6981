-- ===== src/Prelude/Descending.antt =====
-- What a reader sees of an ordered list, and that its rows can stand in one such order only.
use go_ewallet_backend.Prelude.Ordered.{all, IsOrdered}
use mathlib.Core.Path.{◌≡◌, sym, ap₂, subst}
use mathlib.Core.Logic.Or
use mathlib.Core.Bool.{Bool, true, Bool-set}
use mathlib.Core.List.{
  List, [], ◌∷◌, Mem, Perm, mem-cons_self, mem-cons_of_mem, eq-or-mem_of_mem-cons, not-mem-nil,
}
use mathlib.Core.List.Perm
use native.Mathlib.Omega.{arith}

module _ {A : Type 0} where
  -- Every row stands in the relation to each that follows it.
  abbrev pub IsBefore : (A → A → Type 0) → A → List A → Type 0
  IsBefore R x [] = Unit
  IsBefore R x (y ∷ ys) = R x y × IsBefore R x ys

  abbrev pub InOrder : (A → A → Type 0) → List A → Type 0
  InOrder R [] = Unit
  InOrder R (x ∷ xs) = IsBefore R x xs × InOrder R xs

  module _ (le : A → A → Bool) (R : A → A → Type 0)
      (meaning : (x y : A) → le x y ≡ true → R x y) where
    IsBefore-all : (x : A) (ys : List A) → all (le x) ys ≡ true → IsBefore R x ys
    IsBefore-all x [] h = tt
    IsBefore-all x (y ∷ ys) h =
        (meaning x y (ground (arith, h)), IsBefore-all x ys (ground (arith, h)))

    pub IsOrdered-InOrder : (xs : List A) → IsOrdered le xs → InOrder R xs
    IsOrdered-InOrder [] h = tt
    IsOrdered-InOrder (x ∷ xs) h = (IsBefore-all x xs h.0, IsOrdered-InOrder xs h.1)

  module _ (p : A → Bool) where
    pub member-all : (x : A) (xs : List A) → all p xs ≡ true → Mem x xs → p x ≡ true
    member-all x [] h m = absurd (not-mem-nil m)
    member-all x (y ∷ ys) h m =
        Or.elim (Bool-set (p x) true) (eq-or-mem_of_mem-cons m)
          (λ e. subst (λ z. p z ≡ true) (sym e) (ground (arith, h)))
          (λ k. member-all x ys (ground (arith, h)) k)

  module _ (le : A → A → Bool) where
    -- The head of an ordered list against the head of another with the same rows.
    head-le :
        (x y : A) (xs ys : List A)
        → le x x ≡ true
        → IsOrdered le (x ∷ xs)
        → Perm (y ∷ ys) (x ∷ xs)
        → le x y ≡ true
    head-le x y xs ys self h p =
        member-all (le x) y (x ∷ xs) (ground (arith, self, h.0)) ((Perm.mem_iff p).0 mem-cons_self)

    pub ordered_unique :
        (reflexive : (x : A) → le x x ≡ true) (xs ys : List A)
        → ((x y : A) → Mem x xs → Mem y xs → le x y ≡ true → le y x ≡ true → x ≡ y)
        → IsOrdered le xs
        → IsOrdered le ys
        → Perm xs ys
        → xs ≡ ys
    ordered_unique reflexive [] ys anti hx hy p = Perm.nil-eq p
    ordered_unique reflexive (x ∷ xs) [] anti hx hy p = Perm.eq-nil p
    ordered_unique reflexive (x ∷ xs) (y ∷ ys) anti hx hy p =
        let same : x ≡ y =
          anti x y mem-cons_self ((Perm.mem_iff p).1 mem-cons_self)
            (head-le x y xs ys (reflexive x) hx (Perm.symm p))
            (head-le y x ys xs (reflexive y) hy p) in
        let tails = Perm.cons_inv (Perm.trans p (Perm.cons' (sym same) Perm.rfl)) in
        ap₂ ◌∷◌ same (
          ordered_unique reflexive xs ys
            (λ a b ma mb. anti a b (mem-cons_of_mem x ma) (mem-cons_of_mem x mb)) hx.1 hy.1 tails)
