-- ===== src/Base/Lists.antt =====
-- Lists measured and indexed by native numbers. An index out of range is a panic, as for a Rust
-- slice or vector.
use Prim.Native.Nat.{ℕ, zero, suc, ◌+◌}
use mathlib.Core.Path.{◌≡◌, refl, ap, ◌∙◌}
use mathlib.Core.List.{List, [], ◌∷◌, ◌++◌}
use mathlib.Core.Option.{Option, none, some}
use native.Mathlib.Nat.{zero-add}
use native.Mathlib.Omega.{arith}

module _ {ℓ} {A : Type ℓ} where
  abbrev pub length : List A → ℕ
  length [] = 0
  length (x ∷ xs) = suc (length xs)

  -- xs[i]
  abbrev pub get_elem? : List A → ℕ → Option A
  get_elem? [] i = none
  get_elem? (x ∷ xs) zero = some x
  get_elem? (x ∷ xs) (suc i) = get_elem? xs i

  -- The prefix in reverse order, put back in front of a list.
  abbrev pub rev_append : List A → List A → List A
  rev_append [] ys = ys
  rev_append (x ∷ rp) ys = rev_append rp (x ∷ ys)

  abbrev pub cons_some : A → Option (List A) → Option (List A)
  cons_some x none = none
  cons_some x (some xs) = some (x ∷ xs)

  -- xs[i] = v
  abbrev pub set : List A → ℕ → A → Option (List A)
  set [] i v = none
  set (x ∷ xs) zero v = some (v ∷ xs)
  set (x ∷ xs) (suc i) v = cons_some x (set xs i v)

  -- xs.insert(i, v)
  abbrev pub insert_at : List A → ℕ → A → Option (List A)
  insert_at xs zero v = some (v ∷ xs)
  insert_at [] (suc i) v = none
  insert_at (x ∷ xs) (suc i) v = cons_some x (insert_at xs i v)

  -- xs.remove(i)
  abbrev pub remove_at : List A → ℕ → Option (List A)
  remove_at [] i = none
  remove_at (x ∷ xs) zero = some xs
  remove_at (x ∷ xs) (suc i) = cons_some x (remove_at xs i)

  -- xs.split_at(n)
  abbrev pub split_at : List A → ℕ → Option (List A × List A)
  split_at xs zero = some ([], xs)
  split_at [] (suc n) = none
  split_at (x ∷ xs) (suc n) = elim (split_at xs n) [
    | none ↦ none
    | some (front, back) ↦ some (x ∷ front, back)
  ]

  abbrev pub take : ℕ → List A → List A
  take zero xs = []
  take (suc n) [] = []
  take (suc n) (x ∷ xs) = x ∷ take n xs

  abbrev pub drop : ℕ → List A → List A
  drop zero xs = xs
  drop (suc n) [] = []
  drop (suc n) (x ∷ xs) = drop n xs

  pub length-append : (xs ys : List A) → length (xs ++ ys) ≡ length xs + length ys
  length-append [] ys = omega arith
  length-append (x ∷ xs) ys = omega (arith, length-append xs ys)

  pub length-rev_append : (rp ys : List A) → length (rev_append rp ys) ≡ length rp + length ys
  length-rev_append [] ys = omega arith
  length-rev_append (x ∷ rp) ys = omega (arith, length-rev_append rp (x ∷ ys))

pub shift : (n j : ℕ) → suc n + j ≡ n + suc j
shift n j = omega arith

module _ {ℓ} {A : Type ℓ} where
  abbrev pub some_rev_append : List A → Option (List A) → Option (List A)
  some_rev_append rp none = none
  some_rev_append rp (some ys) = some (rev_append rp ys)

  some_rev_append-cons_some :
      (rp : List A) (x : A) (o : Option (List A))
      → some_rev_append rp (cons_some x o) ≡ some_rev_append (x ∷ rp) o
  some_rev_append-cons_some rp x none = refl
  some_rev_append-cons_some rp x (some ys) = refl

  some_nil : (o : Option (List A)) → o ≡ some_rev_append [] o
  some_nil none = refl
  some_nil (some ys) = refl

  -- At an index behind the reversed prefix each operation works on the rest.
  pub get_elem?-rev_append :
      (rp ys : List A) (j : ℕ) → get_elem? (rev_append rp ys) (length rp + j) ≡ get_elem? ys j
  get_elem?-rev_append [] ys j = rw zero-add
  get_elem?-rev_append (x ∷ rp) ys j =
      rw (shift (length rp) j) (get_elem?-rev_append rp (x ∷ ys) (suc j))

  pub set-rev_append :
      (rp ys : List A) (j : ℕ) (v : A)
      → set (rev_append rp ys) (length rp + j) v ≡ some_rev_append rp (set ys j v)
  set-rev_append [] ys j v = rw zero-add (some_nil (set ys j v))
  set-rev_append (x ∷ rp) ys j v =
      rw (shift (length rp) j)
        (set-rev_append rp (x ∷ ys) (suc j) v ∙ some_rev_append-cons_some rp x (set ys j v))

  pub insert_at-rev_append :
      (rp ys : List A) (j : ℕ) (v : A)
      → insert_at (rev_append rp ys) (length rp + j) v ≡ some_rev_append rp (insert_at ys j v)
  insert_at-rev_append [] ys j v = rw zero-add (some_nil (insert_at ys j v))
  insert_at-rev_append (x ∷ rp) ys j v = rw (shift (length rp) j) (
      insert_at-rev_append rp (x ∷ ys) (suc j) v
      ∙ some_rev_append-cons_some rp x (insert_at ys j v))

  pub remove_at-rev_append :
      (rp ys : List A) (j : ℕ)
      → remove_at (rev_append rp ys) (length rp + j) ≡ some_rev_append rp (remove_at ys j)
  remove_at-rev_append [] ys j = rw zero-add (some_nil (remove_at ys j))
  remove_at-rev_append (x ∷ rp) ys j =
      rw (shift (length rp) j)
        (remove_at-rev_append rp (x ∷ ys) (suc j) ∙ some_rev_append-cons_some rp x (remove_at ys j))

pub snoc_assoc {ℓ} :
    {A : Type ℓ} (xs : List A) (x : A) (ys : List A) → (xs ++ x ∷ []) ++ ys ≡ xs ++ x ∷ ys
snoc_assoc [] x ys = refl
snoc_assoc (z ∷ xs) x ys = ap (◌∷◌ z) (snoc_assoc xs x ys)
