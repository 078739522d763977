-- ===== src/Prelude/Sort.antt =====
-- Sorting and selecting by a Boolean test, the way Python's `sorted`, `min` and `max` do with a key.
use mathlib.Core.Bool.{Bool}
use mathlib.Core.Option.{Option, none, some}
use mathlib.Core.List.{List, [], ◌∷◌}
use ict_trading_claude.Prelude.Tests.{if◌then◌else◌, if_both}
use ict_trading_claude.Prelude.Lists.{All, filter}

module _ {ℓ} {A : Type ℓ} where
  -- Stable: an item goes before those that it ties with, and the items are inserted from the last.
  abbrev pub insert_by : (A → A → Bool) → A → List A → List A
  insert_by le x [] = x ∷ []
  insert_by le x (y ∷ ys) = if le x y then x ∷ y ∷ ys else y ∷ insert_by le x ys

  abbrev pub sort_by : (A → A → Bool) → List A → List A
  sort_by le [] = []
  sort_by le (x ∷ xs) = insert_by le x (sort_by le xs)

  -- The first of the best, where `better x y` is that `x` has the strictly better key.
  abbrev pub best_from : (A → A → Bool) → A → List A → A
  best_from better b [] = b
  best_from better b (x ∷ xs) = best_from better (if better x b then x else b) xs

  abbrev pub best : (A → A → Bool) → List A → Option A
  best better [] = none
  best better (x ∷ xs) = some (best_from better x xs)

  module _ {κ} (P : A → Type κ) where
    pub All-insert_by :
        (le : A → A → Bool) (x : A) (xs : List A) → P x → All P xs → All P (insert_by le x xs)
    All-insert_by le x [] p a = (p, tt)
    All-insert_by le x (y ∷ ys) p a =
        if_both (All P) (le x y) (x ∷ y ∷ ys) (y ∷ insert_by le x ys) (p, a)
          (a.0, All-insert_by le x ys p a.1)

    pub All-sort_by : (le : A → A → Bool) (xs : List A) → All P xs → All P (sort_by le xs)
    All-sort_by le [] a = tt
    All-sort_by le (x ∷ xs) a = All-insert_by le x (sort_by le xs) a.0 (All-sort_by le xs a.1)

    pub All-filter : (p : A → Bool) (xs : List A) → All P xs → All P (filter p xs)
    All-filter p [] a = tt
    All-filter p (x ∷ xs) a =
        if_both (All P) (p x) (x ∷ filter p xs) (filter p xs) (a.0, All-filter p xs a.1)
          (All-filter p xs a.1)

    pub best_from-holds :
        (better : A → A → Bool) (b : A) (xs : List A) → P b → All P xs → P (best_from better b xs)
    best_from-holds better b [] p a = p
    best_from-holds better b (x ∷ xs) p a =
        best_from-holds better (if better x b then x else b) xs (if_both P (better x b) x b a.0 p)
          a.1
