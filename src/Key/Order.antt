-- ===== src/Key/Order.antt =====
-- The order laws of the comparator of skiplist/skiplist.go.
use wisp_db.Base.{◌≡◌, ◌⊎◌, inl, inr, true, false, arith, Bool-cases}
use wisp_db.Base.Int.{eq_of_parts}
use wisp_db.Key.{Key, key_lt, key_eq}

pub key_eq_refl : (a : Key) → key_eq a a ≡ true
unfolding key_eq
key_eq_refl a = ground arith

pub key_eq→eq : (a b : Key) → key_eq a b ≡ true → a ≡ b
unfolding key_eq
key_eq→eq a b h =
    let s : a.series_id ≡ b.series_id = ground arith in
    let t : a.timestamp ≡ b.timestamp = eq_of_parts a.timestamp b.timestamp (ground arith) in
    λ i. record { series_id = s i; timestamp = t i }

pub key_lt_irrefl : (a : Key) → key_lt a a ≡ false
unfolding key_lt
key_lt_irrefl a = ground arith

pub key_lt_trans : (a b c : Key) → key_lt a b ≡ true → key_lt b c ≡ true → key_lt a c ≡ true
unfolding key_lt
key_lt_trans a b c h k = ground arith

pub key_lt-asymm : (a b : Key) → key_lt a b ≡ true → key_lt b a ≡ false
unfolding key_lt
key_lt-asymm a b h = ground arith

pub key_eq_of_lt : (a b : Key) → key_lt a b ≡ true → key_eq a b ≡ false
unfolding key_lt key_eq
key_eq_of_lt a b h = ground arith

pub key_eq_of_gt : (a b : Key) → key_lt a b ≡ true → key_eq b a ≡ false
unfolding key_lt key_eq
key_eq_of_gt a b h = ground arith

pub key_eq_of_not_lt : (a b : Key) → key_lt a b ≡ false → key_lt b a ≡ false → key_eq a b ≡ true
unfolding key_lt key_eq
key_eq_of_not_lt a b h k = ground arith

pub key_lt_total : (a b : Key) → (key_lt a b ≡ true) ⊎ (key_eq a b ≡ true) ⊎ (key_lt b a ≡ true)
key_lt_total a b = elim (Bool-cases (key_lt a b)) [
  | inl h ↦ inl h
  | inr h ↦ elim (Bool-cases (key_lt b a)) [
    | inl k ↦ inr (inr k)
    | inr k ↦ inr (inl (key_eq_of_not_lt a b h k))
  ]
]

pub key_eq_congr : (a b c : Key) → key_eq b c ≡ true → key_eq a c ≡ key_eq a b
key_eq_congr a b c h = rw (key_eq→eq b c h)

pub key_eq_left : (a b c : Key) → key_eq a b ≡ true → key_eq a c ≡ key_eq b c
key_eq_left a b c h = rw (key_eq→eq a b h)

pub key_lt_congr : (a b c : Key) → key_eq b c ≡ true → key_lt a c ≡ key_lt a b
key_lt_congr a b c h = rw (key_eq→eq b c h)
