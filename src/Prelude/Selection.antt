-- ===== src/Prelude/Selection.antt =====
-- What it means that a list holds just the rows of a table that a condition picks out.
use go_ewallet_backend.Prelude.Tests.{Bool-cases}
use go_ewallet_backend.Prelude.Table.{any, select_where}
use go_ewallet_backend.Prelude.Ordered.{all}
use go_ewallet_backend.Prelude.Descending.{member-all}
use mathlib.Core.Path.{◌≡◌, refl, subst}
use mathlib.Core.Logic.{inl, inr}
use mathlib.Core.Logic.Or
use mathlib.Core.Bool.{Bool, true, false, ◌&&◌, ◌||◌, not, Bool-set}
use mathlib.Core.List.{
  List, [], ◌∷◌, ◌++◌, Mem, Perm, mem-cons_self, mem-cons_of_mem, eq-or-mem_of_mem-cons,
  not-mem-nil, mem-append_left, perm_middle,
}
use mathlib.Core.List.Perm
use native.Mathlib.Omega.{arith}

-- The table is the picked rows and others; the condition holds of the one kind and of none of the
-- other.
pub record IsSelection {A : Type 0} (P : A → Type 0) (picked table : List A) : Type 0 where
  pub others : List A
  pub split : Perm (picked ++ others) table
  pub holds : (x : A) → Mem x picked → P x
  pub fails : (x : A) → Mem x others → ¬ P x

module _ {A : Type 0} where
  all-select_where : (p : A → Bool) (xs : List A) → all p (select_where p xs) ≡ true
  all-select_where p [] = refl
  all-select_where p (x ∷ xs) = ground (arith, all-select_where p xs)

  both_halves :
      (p : A → Bool) (xs : List A) → Perm (select_where p xs ++ select_where (λ x. not (p x)) xs) xs
  both_halves p [] = Perm.rfl
  both_halves p (x ∷ xs) = elim (Bool-cases (p x)) [
    | inl e ↦ rw e (Perm.cons x (both_halves p xs))
    | inr e ↦ rw e (
        Perm.trans (perm_middle (select_where p xs) (select_where (λ y. not (p y)) xs))
          (Perm.cons x (both_halves p xs)))
  ]

  -- A test that decides the condition selects its rows.
  pub select_where-IsSelection :
      {P : A → Type 0} (p : A → Bool)
      → ((x : A) → p x ≡ true → P x)
      → ((x : A) → P x → p x ≡ true)
      → (xs : List A) → IsSelection P (select_where p xs) xs
  select_where-IsSelection p sound complete xs = record {
    others = select_where (λ x. not (p x)) xs;
    split = both_halves p xs;
    holds = λ x m. sound x (member-all p x (select_where p xs) (all-select_where p xs) m);
    fails = λ x m y.
        let refused =
          member-all (λ z. not (p z)) x (select_where (λ z. not (p z)) xs)
            (all-select_where (λ z. not (p z)) xs) m in
        ground (arith, refused, complete x y);
  }

  pub picked-Mem :
      {P : A → Type 0} {picked table : List A} {x : A}
      → IsSelection P picked table
      → Mem x picked
      → Mem x table
  picked-Mem s m = (Perm.mem_iff s.split).0 (mem-append_left s.others m)

  -- The order of the picked rows does not matter.
  pub Perm-IsSelection :
      {P : A → Type 0} {ys xs table : List A}
      → Perm ys xs
      → IsSelection P xs table
      → IsSelection P ys table
  Perm-IsSelection p s = record {
    others = s.others;
    split = Perm.trans (Perm.append_right s.others p) s.split;
    holds = λ x m. s.holds x ((Perm.mem_iff p).0 m);
    fails = s.fails;
  }

  -- Two tests that no row passes at once select, one after the other, what either selects.
  pub union-perm :
      (p q : A → Bool) (xs : List A)
      → any (λ x. p x && q x) xs ≡ false
      → Perm (select_where p xs ++ select_where q xs) (select_where (λ x. p x || q x) xs)
  union-perm p q [] h = Perm.rfl
  union-perm p q (x ∷ xs) h = elim (Bool-cases (p x)) [
    | inl e ↦
        let e' : q x ≡ false = ground (arith, e, h) in
        rw (e, e') (Perm.cons x (union-perm p q xs (ground (arith, h))))
    | inr e ↦ elim (Bool-cases (q x)) [
      | inl e' ↦
          rw (e, e')
            (Perm.trans (perm_middle (select_where p xs) (select_where q xs))
              (Perm.cons x (union-perm p q xs (ground (arith, h)))))
      | inr e' ↦ rw (e, e') (union-perm p q xs (ground (arith, h)))
    ]
  ]

  pub any-member :
      (p : A → Bool) (xs : List A) → any p xs ≡ true → (x : A) × Mem x xs × (p x ≡ true)
  any-member p [] h = ground (arith, h)
  any-member p (x ∷ xs) h = elim (Bool-cases (p x)) [
    | inl e ↦ (x, mem-cons_self, e)
    | inr e ↦
        let (y, m, e') = any-member p xs (ground (arith, h, e)) in (y, mem-cons_of_mem x m, e')
  ]

  pub member-any : (p : A → Bool) (x : A) (xs : List A) → Mem x xs → p x ≡ true → any p xs ≡ true
  member-any p x [] m h = absurd (not-mem-nil m)
  member-any p x (y ∷ ys) m h =
      Or.elim (Bool-set (any p (y ∷ ys)) true) (eq-or-mem_of_mem-cons m)
        (λ e. let k : p y ≡ true = subst (λ z. p z ≡ true) e h in ground (arith, k))
        (λ k. ground (arith, member-any p x ys k h))
