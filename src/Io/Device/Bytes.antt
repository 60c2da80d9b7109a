-- ===== src/Io/Device/Bytes.antt =====
-- Laws of the bytes of a disk.
use cmfs.Prelude.{
  ℕ, zero, suc, ◌+◌, ◌-◌, ◌<◌, ◌≤◌, min, ◌≡◌, refl, sym, ◌∙◌, ap, ◌⊎◌, inl, inr, arith, List, [],
  ◌∷◌, ◌++◌, length, get_or, take, drop, length-take, length-drop,
}
use cmfs.Io.Device.{Reply, failed, moved, next_reply, bytes_at, store}

pub length-bytes_at : (d : ℕ → ℕ) (l n : ℕ) → length (bytes_at d l n) ≡ n
unfolding bytes_at
length-bytes_at d l zero = refl
length-bytes_at d l (suc n) = ap suc (length-bytes_at d (l + 1) n)

pub bytes_at-append :
    (d : ℕ → ℕ) (l a b : ℕ) → bytes_at d l (a + b) ≡ bytes_at d l a ++ bytes_at d (l + a) b
unfolding bytes_at
bytes_at-append d l zero b =
    let e : 0 + b ≡ b = omega arith in let e' : l + 0 ≡ l = omega arith in rw (e, e') refl
bytes_at-append d l (suc a) b =
    let e : suc a + b ≡ suc (a + b) = omega arith in
    let e' : l + suc a ≡ l + 1 + a = omega arith in
    rw (e, e') (ap (λ t. d l ∷ t) (bytes_at-append d (l + 1) a b))

-- A range of bytes is the same on disks that agree on it.
pub bytes_at-cong :
    (d d' : ℕ → ℕ) (l n : ℕ)
    → ((a : ℕ) → l ≤ a → a < l + n → d a ≡ d' a)
    → bytes_at d l n ≡ bytes_at d' l n
unfolding bytes_at
bytes_at-cong d d' l zero h = refl
bytes_at-cong d d' l (suc n) h =
    rw
      (
        h l (omega arith) (omega arith),
        bytes_at-cong d d' (l + 1) n (λ a x y. h a (omega arith) (omega arith)),
      )
      refl

-- A call fails, or moves at most what it is asked for.
pub next_reply-cases :
    (want : ℕ) (rs : List Reply)
    → ((e : ℕ) × ((next_reply want rs).0 ≡ failed e))
      ⊎ ((n : ℕ) × (n ≤ want) × ((next_reply want rs).0 ≡ moved n))
unfolding next_reply
next_reply-cases want [] = inr (want, omega arith, refl)
next_reply-cases want (failed e ∷ rs) = inl (e, refl)
next_reply-cases want (moved n ∷ rs) = inr (min n want, omega arith, refl)

pub store-nothing : (d : ℕ → ℕ) (l a : ℕ) → store d l [] a ≡ d a
unfolding store
store-nothing d l a = ground arith

pub get_or-take : (n : ℕ) (xs : List ℕ) (i : ℕ) → i < n → get_or (take n xs) i 0 ≡ get_or xs i 0
get_or-take zero xs i h = absurd (omega arith)
get_or-take (suc n) [] i h = refl
get_or-take (suc n) (x ∷ xs) zero h = refl
get_or-take (suc n) (x ∷ xs) (suc i) h = get_or-take n xs i (omega arith)

pub get_or-drop : (n : ℕ) (xs : List ℕ) (i : ℕ) → get_or (drop n xs) i 0 ≡ get_or xs (n + i) 0
get_or-drop zero xs i = ap (λ (t : ℕ). get_or xs t 0) (omega arith)
get_or-drop (suc n) [] i = refl
get_or-drop (suc n) (x ∷ xs) i =
    let e : suc n + i ≡ suc (n + i) = omega arith in rw e (get_or-drop n xs i)

length-take_le : (n : ℕ) (xs : List ℕ) → n ≤ length xs → length (take n xs) ≡ n
length-take_le n xs h = omega (arith, length-take n xs)

-- Inside what is stored the new bytes are read, outside it the old ones.
pub store-inside :
    (d : ℕ → ℕ) (l n : ℕ) (xs : List ℕ) (a : ℕ)
    → n ≤ length xs
    → l ≤ a
    → a < l + n
    → store d l (take n xs) a ≡ get_or xs (a - l) 0
unfolding store
store-inside d l n xs a h x y =
    ground (arith, length-take_le n xs h, get_or-take n xs (a - l) (omega arith))

pub store-outside :
    (d : ℕ → ℕ) (l n : ℕ) (xs : List ℕ) (a : ℕ)
    → n ≤ length xs
    → (a < l) ⊎ (l + n ≤ a)
    → store d l (take n xs) a ≡ d a
unfolding store
store-outside d l n xs a h (inl x) = ground (arith, length-take_le n xs h)
store-outside d l n xs a h (inr y) = ground (arith, length-take_le n xs h)

range-cases : (l n a : ℕ) → ((l ≤ a) × (a < l + n)) ⊎ ((a < l) ⊎ (l + n ≤ a))
range-cases l n a = ground arith

-- Two stores of neighbouring pieces are one.
pub store-store :
    (d d' : ℕ → ℕ) (l m n : ℕ) (xs : List ℕ) (a : ℕ)
    → m + n ≤ length xs
    → d' a ≡ store d l (take m xs) a
    → store d' (l + m) (take n (drop m xs)) a ≡ store d l (take (m + n) xs) a
store-store d d' l m n xs a h old =
    let long : n ≤ length (drop m xs) = omega (arith, length-drop m xs) in
    elim (range-cases (l + m) n a) [
      | inl (x, y) ↦
          store-inside d' (l + m) n (drop m xs) a long x y
          ∙ get_or-drop m xs (a - (l + m))
          ∙ ap (λ (t : ℕ). get_or xs t 0) (omega arith)
          ∙ sym (store-inside d l (m + n) xs a h (omega arith) (omega arith))
      | inr out ↦
          store-outside d' (l + m) n (drop m xs) a long out ∙ old ∙ elim (range-cases l m a) [
            | inl (x, y) ↦
                store-inside d l m xs a (omega arith) x y
                ∙ sym (store-inside d l (m + n) xs a h x (omega arith))
            | inr out' ↦
                store-outside d l m xs a (omega arith) out'
                ∙ sym (store-outside d l (m + n) xs a h (ground arith))
          ]
    ]

-- The bytes that are stored are read back.
pub bytes_at-get :
    (d : ℕ → ℕ) (l n : ℕ) (xs : List ℕ)
    → ((i : ℕ) → i < n → d (l + i) ≡ get_or xs i 0)
    → n ≤ length xs
    → bytes_at d l n ≡ take n xs
unfolding bytes_at
bytes_at-get d l zero xs h long = refl
bytes_at-get d l (suc n) [] h long = absurd (omega arith)
bytes_at-get d l (suc n) (x ∷ xs) h long =
    let e : l + 0 ≡ l = omega arith in
    let first : d l ≡ x = rw e at (h 0 (omega arith)) in
    rw first (
      ap (λ t. x ∷ t)
        (bytes_at-get d (l + 1) n xs
          (λ i lt. let e' : l + 1 + i ≡ l + suc i = omega arith in rw e' (h (suc i) (omega arith)))
          (omega arith)))
