-- ===== src/Prelude/Sort.antt =====
-- `sort_by` of std with a comparison that puts the greatest key first: a stable sort.
use pgcat.Prelude.{
  ℕ, ◌≤◌, ◌≡◌, refl, inl, inr, Bool, true, List, [], ◌∷◌, ltb, if◌then◌else◌, All, arith,
  Bool-cases, ltb→lt,
}
use mathlib.Core.List.{Memᴰ}
use mathlib.Core.List.Memᴰ

module _ {A : Type 0} where
  -- In front of the first element that is not greater.
  unfoldable pub insert_desc : (A → ℕ) → A → List A → List A
  insert_desc key x [] = x ∷ []
  insert_desc key x (y ∷ ys) =
      let rest = insert_desc key x ys in if ltb (key x) (key y) then y ∷ rest else x ∷ (y ∷ ys)

  unfoldable pub sort_desc : (A → ℕ) → List A → List A
  unfolding insert_desc
  sort_desc key [] = []
  sort_desc key (x ∷ xs) = insert_desc key x (sort_desc key xs)

  unfoldable pub retain : (A → Bool) → List A → List A
  retain test [] = []
  retain test (x ∷ xs) = let rest = retain test xs in if test x then x ∷ rest else rest

  abbrev pub IsDescending : (A → ℕ) → List A → Type 0
  IsDescending key [] = Unit
  IsDescending key (x ∷ xs) = All (λ y. key y ≤ key x) xs × IsDescending key xs

  insert_desc-All :
      (P : A → Type 0) (key : A → ℕ) (x : A) (xs : List A)
      → P x
      → All P xs
      → All P (insert_desc key x xs)
  unfolding insert_desc
  insert_desc-All P key x [] p h = (p, tt)
  insert_desc-All P key x (y ∷ ys) p (q, h) = elim (Bool-cases (ltb (key x) (key y))) [
    | inl less ↦ rw less (q, insert_desc-All P key x ys p h)
    | inr more ↦ rw more (p, (q, h))
  ]

  pub sort_desc-All :
      (P : A → Type 0) (key : A → ℕ) (xs : List A) → All P xs → All P (sort_desc key xs)
  unfolding sort_desc
  sort_desc-All P key [] h = tt
  sort_desc-All P key (x ∷ xs) (p, h) =
      insert_desc-All P key x (sort_desc key xs) p (sort_desc-All P key xs h)

  All-le :
      (key : A → ℕ) (n m : ℕ) (xs : List A)
      → m ≤ n
      → All (λ y. key y ≤ m) xs
      → All (λ y. key y ≤ n) xs
  All-le key n m [] le h = tt
  All-le key n m (x ∷ xs) le (p, h) = (omega arith, All-le key n m xs le h)

  insert_desc-IsDescending :
      (key : A → ℕ) (x : A) (xs : List A)
      → IsDescending key xs
      → IsDescending key (insert_desc key x xs)
  unfolding insert_desc
  insert_desc-IsDescending key x [] h = (tt, tt)
  insert_desc-IsDescending key x (y ∷ ys) (below, h) = elim (Bool-cases (ltb (key x) (key y))) [
    | inl less ↦
        let lt = ltb→lt (key x) (key y) less in
        rw less (
          insert_desc-All (λ z. key z ≤ key y) key x ys (omega arith) below,
          insert_desc-IsDescending key x ys h,
        )
    | inr more ↦
        let le : key y ≤ key x = ground arith in
        rw more ((le, All-le key (key x) (key y) ys le below), (below, h))
  ]

  pub sort_desc-IsDescending : (key : A → ℕ) (xs : List A) → IsDescending key (sort_desc key xs)
  unfolding sort_desc
  sort_desc-IsDescending key [] = tt
  sort_desc-IsDescending key (x ∷ xs) =
      insert_desc-IsDescending key x (sort_desc key xs) (sort_desc-IsDescending key xs)

  insert_desc-head : (key : A → ℕ) (x : A) (xs : List A) → Memᴰ x (insert_desc key x xs)
  unfolding insert_desc
  insert_desc-head key x [] = Memᴰ.head refl
  insert_desc-head key x (y ∷ ys) = elim (Bool-cases (ltb (key x) (key y))) [
    | inl less ↦ rw less (Memᴰ.tail (insert_desc-head key x ys))
    | inr more ↦ rw more (Memᴰ.head refl)
  ]

  insert_desc-mem :
      (key : A → ℕ) (x a : A) (xs : List A) → Memᴰ a xs → Memᴰ a (insert_desc key x xs)
  unfolding insert_desc
  insert_desc-mem key x a [] m = elim m [ ]
  insert_desc-mem key x a (y ∷ ys) (Memᴰ.head e) = elim (Bool-cases (ltb (key x) (key y))) [
    | inl less ↦ rw less (Memᴰ.head e)
    | inr more ↦ rw more (Memᴰ.tail (Memᴰ.head e))
  ]
  insert_desc-mem key x a (y ∷ ys) (Memᴰ.tail m) = elim (Bool-cases (ltb (key x) (key y))) [
    | inl less ↦ rw less (Memᴰ.tail (insert_desc-mem key x a ys m))
    | inr more ↦ rw more (Memᴰ.tail (Memᴰ.tail m))
  ]

  pub sort_desc-mem : (key : A → ℕ) (a : A) (xs : List A) → Memᴰ a xs → Memᴰ a (sort_desc key xs)
  unfolding sort_desc
  sort_desc-mem key a [] m = elim m [ ]
  sort_desc-mem key a (x ∷ xs) (Memᴰ.head e) =
      Memᴰ.cast e (insert_desc-head key x (sort_desc key xs))
  sort_desc-mem key a (x ∷ xs) (Memᴰ.tail m) =
      insert_desc-mem key x a (sort_desc key xs) (sort_desc-mem key a xs m)

  pub retain-mem :
      (test : A → Bool) (a : A) (xs : List A) → test a ≡ true → Memᴰ a xs → Memᴰ a (retain test xs)
  unfolding retain
  retain-mem test a [] h m = elim m [ ]
  retain-mem test a (x ∷ xs) h (Memᴰ.head e) = rw (← e, h) (Memᴰ.head refl)
  retain-mem test a (x ∷ xs) h (Memᴰ.tail m) = elim (Bool-cases (test x)) [
    | inl keep ↦ rw keep (Memᴰ.tail (retain-mem test a xs h m))
    | inr cut ↦ rw cut (retain-mem test a xs h m)
  ]

  -- What is retained passes the test, and had what held of the whole list.
  pub retain-All :
      (P : A → Type 0) (test : A → Bool) (xs : List A)
      → All P xs
      → All (λ x. P x × (test x ≡ true)) (retain test xs)
  unfolding retain
  retain-All P test [] h = tt
  retain-All P test (x ∷ xs) (p, h) = elim (Bool-cases (test x)) [
    | inl keep ↦ rw keep ((p, keep), retain-All P test xs h)
    | inr cut ↦ rw cut (retain-All P test xs h)
  ]
