-- ===== src/Prelude/Lists.antt =====
-- Lists measured and indexed by the native numbers, Boolean quantifiers and filters.
use Prim.Native.Nat.{ℕ, zero, suc, ◌+◌, ◌≤◌, ◌<◌}
use mathlib.Core.Path.{◌≡◌, refl, ap, sym, ◌∙◌}
use mathlib.Core.Bool.{Bool, true, false, ◌&&◌, ◌||◌}
use mathlib.Core.List.{List, [], ◌∷◌, ◌++◌, append-nil, append_assoc}
use mathlib.Core.Option.{Option, none, some}
use mathlib.Core.Logic.{◌⊎◌, inl, inr}
use native.Mathlib.Omega.{arith}
use ict_trading_claude.Prelude.Tests.{if◌then◌else◌}

module _ {ℓ} {A : Type ℓ} where
  abbrev pub length : List A → ℕ
  length [] = 0
  length (x ∷ xs) = suc (length xs)

  abbrev pub get_elem? : List A → ℕ → Option A
  get_elem? [] i = none
  get_elem? (x ∷ xs) zero = some x
  get_elem? (x ∷ xs) (suc i) = get_elem? xs i

  abbrev pub take : ℕ → List A → List A
  take zero xs = []
  take (suc n) [] = []
  take (suc n) (x ∷ xs) = x ∷ take n xs

  abbrev pub drop : ℕ → List A → List A
  drop zero xs = xs
  drop (suc n) [] = []
  drop (suc n) (x ∷ xs) = drop n xs

  abbrev pub filter : (A → Bool) → List A → List A
  filter p [] = []
  filter p (x ∷ xs) = let rest = filter p xs in if p x then x ∷ rest else rest

  -- `any(p(x) for x in xs)` and `all(p(x) for x in xs)`.
  abbrev pub any : (A → Bool) → List A → Bool
  any p [] = false
  any p (x ∷ xs) = p x || any p xs

  abbrev pub all : (A → Bool) → List A → Bool
  all p [] = true
  all p (x ∷ xs) = p x && all p xs

  abbrev pub last? : List A → Option A
  last? [] = none
  last? (x ∷ []) = some x
  last? (x ∷ y ∷ ys) = last? (y ∷ ys)

  -- Every item satisfies a predicate.
  abbrev pub All {κ} : (A → Type κ) → List A → Type κ
  All P [] = Unit
  All P (x ∷ xs) = P x × All P xs

-- `xs[a:b]`: a slice whose bounds stop at the ends of the list.
abbrev pub slice {ℓ} : {A : Type ℓ} → ℕ → ℕ → List A → List A
slice a b xs = drop a (take b xs)

module _ {ℓ} {A : Type ℓ} where
  pub length-append : (xs ys : List A) → length (xs ++ ys) ≡ length xs + length ys
  length-append [] ys = omega arith
  length-append (x ∷ xs) ys = omega (arith, length-append xs ys)

  pub take-append : (n : ℕ) (xs ys : List A) → n ≤ length xs → take n (xs ++ ys) ≡ take n xs
  take-append zero xs ys h = refl
  take-append (suc n) [] ys h = absurd (omega arith)
  take-append (suc n) (x ∷ xs) ys h = ap (λ t. x ∷ t) (take-append n xs ys (omega arith))

  pub get_elem?-append :
      (xs ys : List A) (i : ℕ) → i < length xs → get_elem? (xs ++ ys) i ≡ get_elem? xs i
  get_elem?-append [] ys i h = absurd (omega arith)
  get_elem?-append (x ∷ xs) ys zero h = refl
  get_elem?-append (x ∷ xs) ys (suc i) h = get_elem?-append xs ys i (omega arith)

  pub All-append {κ} : (P : A → Type κ) (xs ys : List A) → All P xs → All P ys → All P (xs ++ ys)
  All-append P [] ys p q = q
  All-append P (x ∷ xs) ys p q = (p.0, All-append P xs ys p.1 q)

  pub All-map {κ μ} :
      (P : A → Type κ) (Q : A → Type μ)
      → ((a : A) → P a → Q a)
      → (xs : List A) → All P xs
      → All Q xs
  All-map P Q f [] h = tt
  All-map P Q f (x ∷ xs) h = (f x h.0, All-map P Q f xs h.1)

  -- Two facts about every item.
  pub All-both {κ μ} :
      (P : A → Type κ) (Q : A → Type μ) (xs : List A)
      → All P xs
      → All Q xs
      → All (λ a. P a × Q a) xs
  All-both P Q [] p q = tt
  All-both P Q (x ∷ xs) p q = ((p.0, q.0), All-both P Q xs p.1 q.1)

-- `new` is `old` with items appended that all carry a number of at least `i`.
abbrev pub Grows {ℓ} : {A : Type ℓ} → (A → ℕ) → ℕ → List A → List A → Type ℓ
Grows {A = A} key i old new = (more : List A) × (new ≡ old ++ more) × All (λ a. i ≤ key a) more

module _ {ℓ} {A : Type ℓ} (key : A → ℕ) where
  pub All-ge_mono :
      (i j : ℕ) (xs : List A) → i ≤ j → All (λ a. j ≤ key a) xs → All (λ a. i ≤ key a) xs
  All-ge_mono i j [] h a = tt
  All-ge_mono i j (x ∷ xs) h a = (omega arith, All-ge_mono i j xs h a.1)

  pub Grows-refl : (i : ℕ) (xs : List A) → Grows key i xs xs
  Grows-refl i xs = ([], sym (append-nil xs), tt)

  pub Grows-push : (i : ℕ) (xs : List A) (x : A) → i ≤ key x → Grows key i xs (xs ++ (x ∷ []))
  Grows-push i xs x h = (x ∷ [], refl, (h, tt))

  pub Grows-trans :
      (i j : ℕ) (xs ys zs : List A)
      → i ≤ j
      → Grows key i xs ys
      → Grows key j ys zs
      → Grows key i xs zs
  Grows-trans i j xs ys zs h (m, e, a) (n, f, b) = (
    m ++ n,
    f ∙ ap (λ t. t ++ n) e ∙ append_assoc xs m n,
    All-append (λ a. i ≤ key a) m n a (All-ge_mono i j n h b),
  )

module _ {A : Type 0} where
  -- Some item satisfies a predicate.
  abbrev pub Any : (A → Type 0) → List A → Type 0
  Any P [] = ⊥
  Any P (x ∷ xs) = P x ⊎ Any P xs

  abbrev pub Member : A → List A → Type 0
  Member a = Any (λ x. a ≡ x)

  pub All-Member : (xs : List A) → All (λ a. Member a xs) xs
  All-Member [] = tt
  All-Member (x ∷ xs) =
      (inl refl, All-map (λ a. Member a xs) (λ a. Member a (x ∷ xs)) (λ a. inr) xs (All-Member xs))
