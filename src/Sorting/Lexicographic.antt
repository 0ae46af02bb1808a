-- ===== src/Sorting/Lexicographic.antt =====
-- The order of byte strings, and of pairs of a number and a byte string.
use xmtp_node_go.Base.{
  Bool, Bytes, [], arith, false, ltb, refl, true, ℕ, ◌&&◌, ◌==◌, ◌||◌, ◌∷◌, ◌≡◌, nat_eq, bytes_eq,
}
use xmtp_node_go.Sorting.{TotalPreorder}

-- Byte by byte, a prefix first.
abbrev pub bytes_leb : Bytes → Bytes → Bool
bytes_leb [] ys = true
bytes_leb (x ∷ xs) [] = false
bytes_leb (x ∷ xs) (y ∷ ys) = ltb x y || (x == y && bytes_leb xs ys)

pub bytes_leb-total : (xs ys : Bytes) → bytes_leb xs ys ≡ false → bytes_leb ys xs ≡ true
bytes_leb-total [] ys h = absurd (cc h)
bytes_leb-total (x ∷ xs) [] h = refl
bytes_leb-total (x ∷ xs) (y ∷ ys) h = ground (arith, h, bytes_leb-total xs ys)

pub bytes_leb_trans :
    (xs ys zs : Bytes) → bytes_leb xs ys ≡ true → bytes_leb ys zs ≡ true → bytes_leb xs zs ≡ true
bytes_leb_trans [] ys zs h k = refl
bytes_leb_trans (x ∷ xs) [] zs h k = absurd (cc h)
bytes_leb_trans (x ∷ xs) (y ∷ ys) [] h k = absurd (cc k)
bytes_leb_trans (x ∷ xs) (y ∷ ys) (z ∷ zs) h k = ground (arith, h, k, bytes_leb_trans xs ys zs)

-- Both ways only for equal strings.
pub bytes_leb_antisymm :
    (xs ys : Bytes) → bytes_leb xs ys ≡ true → bytes_leb ys xs ≡ true → (xs == ys) ≡ true
bytes_leb_antisymm [] [] h k = refl
bytes_leb_antisymm [] (y ∷ ys) h k = absurd (cc k)
bytes_leb_antisymm (x ∷ xs) [] h k = absurd (cc h)
bytes_leb_antisymm (x ∷ xs) (y ∷ ys) h k = ground (arith, h, k, bytes_leb_antisymm xs ys)

abbrev pub pair_leb : ℕ × Bytes → ℕ × Bytes → Bool
pair_leb (a, xs) (b, ys) = ltb a b || (a == b && bytes_leb xs ys)

pub pair_leb-total : (p q : ℕ × Bytes) → pair_leb p q ≡ false → pair_leb q p ≡ true
pair_leb-total (a, xs) (b, ys) h = ground (arith, h, bytes_leb-total xs ys)

pub pair_leb_trans :
    (p q r : ℕ × Bytes) → pair_leb p q ≡ true → pair_leb q r ≡ true → pair_leb p r ≡ true
pair_leb_trans (a, xs) (b, ys) (c, zs) h k = ground (arith, h, k, bytes_leb_trans xs ys zs)

-- An order of pairs read off the elements, rising or falling.
unfoldable pub rising_by : {A : Type 0} → (A → ℕ × Bytes) → A → A → Bool
rising_by key x y = pair_leb (key x) (key y)

unfoldable pub falling_by : {A : Type 0} → (A → ℕ × Bytes) → A → A → Bool
falling_by key x y = pair_leb (key y) (key x)

pub rising_by-TotalPreorder : {A : Type 0} (key : A → ℕ × Bytes) → TotalPreorder (rising_by key)
unfolding rising_by
rising_by-TotalPreorder key = record {
  total = λ x y h. pair_leb-total (key x) (key y) h;
  trans = λ x y z h k. pair_leb_trans (key x) (key y) (key z) h k;
}

pub falling_by-TotalPreorder : {A : Type 0} (key : A → ℕ × Bytes) → TotalPreorder (falling_by key)
unfolding falling_by
falling_by-TotalPreorder key = record {
  total = λ x y h. pair_leb-total (key y) (key x) h;
  trans = λ x y z h k. pair_leb_trans (key z) (key y) (key x) k h;
}
