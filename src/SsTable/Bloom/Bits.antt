-- ===== src/SsTable/Bloom/Bits.antt =====
-- The bits of the filter's bytes, and the loops of Add and MayContain over them.
use mathlib.Core.Logic.{◌≢◌}
use wisp_db.Base.{
  ℕ, zero, suc, ◌+◌, ◌*◌, ◌/◌, ◌%◌, ◌≤◌, ◌<◌, ◌≡◌, refl, sym, ap, ◌∙◌, true, some, List, [], ◌∷◌,
  arith, inl, inr, Bool-cases, ne→==, ◌==◌, if◌then◌else◌, length, get_elem?, set, length-set,
  get_elem?-set_self, get_elem?-set_ne,
}
use wisp_db.Base.Result.{ok}
use wisp_db.SsTable.Bloom.{test_bit, set_bit, position, write_bit, read_bit, add_loop, contain_loop}

test-set_bit_self : (k b : ℕ) → test_bit k (set_bit k b) ≡ true
unfolding test_bit set_bit
test-set_bit_self zero b = ground arith
test-set_bit_self (suc k) b =
    let e : (b % 2 + 2 * set_bit k (b / 2)) / 2 ≡ set_bit k (b / 2) = omega arith in
    rw e (test-set_bit_self k (b / 2))

-- Setting a bit clears none.
test-set_bit : (j k b : ℕ) → test_bit j b ≡ true → test_bit j (set_bit k b) ≡ true
unfolding test_bit set_bit
test-set_bit zero zero b h = ground arith
test-set_bit (suc j) zero b h =
    let e : (if b % 2 == 1 then b else b + 1) / 2 ≡ b / 2 = ground arith in rw e h
test-set_bit zero (suc k) b h =
    let e : (b % 2 + 2 * set_bit k (b / 2)) % 2 ≡ b % 2 = omega arith in rw e h
test-set_bit (suc j) (suc k) b h =
    let e : (b % 2 + 2 * set_bit k (b / 2)) / 2 ≡ set_bit k (b / 2) = omega arith in
    rw e (test-set_bit j k (b / 2) h)

-- The bit at a position of the filter is set.
abbrev pub IsSetAt : List ℕ → ℕ → Type 0
IsSetAt bits p = read_bit (get_elem? bits (p / 8)) p ≡ ok true

pub get_elem?-lt {ℓ} :
    {A : Type ℓ} (xs : List A) (i : ℕ) → i < length xs → (a : A) × (get_elem? xs i ≡ some a)
get_elem?-lt [] i h = absurd (omega arith)
get_elem?-lt (x ∷ xs) zero h = (x, refl)
get_elem?-lt (x ∷ xs) (suc i) h = get_elem?-lt xs i (omega arith)

test_of_read : (b p : ℕ) → read_bit (some b) p ≡ ok true → test_bit (p % 8) b ≡ true
unfolding read_bit
test_of_read b p h = cc

-- What a write of a bit does.
abbrev pub Sets : List ℕ → ℕ → List ℕ → Type 0
Sets bits p bits' =
    (length bits' ≡ length bits) × (IsSetAt bits' p) × ((q : ℕ) → IsSetAt bits q → IsSetAt bits' q)

module _ (bits : List ℕ) (p b : ℕ) (h : p / 8 < length bits)
    (e : get_elem? bits (p / 8) ≡ some b) where
  set_self : IsSetAt (set bits (p / 8) (set_bit (p % 8) b)) p
  unfolding read_bit
  set_self = rw (get_elem?-set_self bits (p / 8) (set_bit (p % 8) b) h, test-set_bit_self (p % 8) b)

  set_keeps : (q : ℕ) → IsSetAt bits q → IsSetAt (set bits (p / 8) (set_bit (p % 8) b)) q
  unfolding read_bit
  set_keeps q hq = elim (Bool-cases (p / 8 == q / 8)) [
    | inl s ↦
        let same : q / 8 ≡ p / 8 = ground (arith, s) in
        let old : test_bit (q % 8) b ≡ true =
          test_of_read b q (sym (ap (λ o. read_bit o q) (ap (get_elem? bits) same ∙ e)) ∙ hq) in
        rw (
          same,
          get_elem?-set_self bits (p / 8) (set_bit (p % 8) b) h,
          test-set_bit (q % 8) (p % 8) b old,
        )
    | inr n ↦
        let ne : p / 8 ≢ q / 8 = ground (arith, n) in
        rw (get_elem?-set_ne bits (p / 8) (q / 8) (set_bit (p % 8) b) ne) hq
  ]

pub write-Sets :
    (bits : List ℕ) (p : ℕ)
    → p / 8 < length bits
    → (bits' : List ℕ) × (write_bit (get_elem? bits (p / 8)) p bits ≡ ok bits') × Sets bits p bits'
unfolding write_bit
write-Sets bits p h =
    let b = get_elem?-lt bits (p / 8) h in
    (
      set bits (p / 8) (set_bit (p % 8) b.0),
      rw b.1,
      (
        length-set bits (p / 8) (set_bit (p % 8) b.0),
        set_self bits p b.0 h b.1,
        set_keeps bits p b.0 h b.1,
      ),
    )

-- The filter's bytes hold all its bits.
abbrev pub Fits : ℕ → List ℕ → Type 0
Fits n bits = (0 < n) × (n ≤ 8 * length bits)

pub position-in_range :
    (h : ℕ × ℕ) (i n : ℕ) (bits : List ℕ) → Fits n bits → position h i n / 8 < length bits
unfolding position
position-in_range h i n bits fits = omega (arith, fits.0, fits.1)

-- The bits of the `k` hashes from number `i` on are set.
pub IsCovered : ℕ → ℕ → ℕ × ℕ → ℕ → List ℕ → Type 0
IsCovered zero i h n bits = Unit
IsCovered (suc k) i h n bits = (IsSetAt bits (position h i n)) × IsCovered k (suc i) h n bits

pub IsCovered-mono :
    (k i : ℕ) (h : ℕ × ℕ) (n : ℕ) (bits bits' : List ℕ)
    → ((q : ℕ) → IsSetAt bits q → IsSetAt bits' q)
    → IsCovered k i h n bits
    → IsCovered k i h n bits'
unfolding IsCovered
IsCovered-mono zero i h n bits bits' m c = tt
IsCovered-mono (suc k) i h n bits bits' m c =
    (m (position h i n) c.0, IsCovered-mono k (suc i) h n bits bits' m c.1)

pub contain-IsCovered :
    (k i : ℕ) (h : ℕ × ℕ) (n : ℕ) (bits : List ℕ)
    → IsCovered k i h n bits
    → contain_loop k i h n bits ≡ ok true
unfolding IsCovered contain_loop
contain-IsCovered zero i h n bits c = refl
contain-IsCovered (suc k) i h n bits c = rw (c.0, contain-IsCovered k (suc i) h n bits c.1)

-- What Add's loop does.
abbrev pub Adds : ℕ → ℕ → ℕ × ℕ → ℕ → List ℕ → List ℕ → Type 0
Adds k i h n bits bits' =
    (length bits' ≡ length bits)
    × (IsCovered k i h n bits')
    × ((q : ℕ) → IsSetAt bits q → IsSetAt bits' q)

pub add_loop-Adds :
    (k i : ℕ) (h : ℕ × ℕ) (n : ℕ) (bits : List ℕ)
    → Fits n bits
    → (bits' : List ℕ) × (add_loop k i h n bits ≡ ok bits') × Adds k i h n bits bits'
unfolding add_loop IsCovered
add_loop-Adds zero i h n bits fits = (bits, refl, (refl, tt, λ q s. s))
add_loop-Adds (suc k) i h n bits fits =
    let w = write-Sets bits (position h i n) (position-in_range h i n bits fits) in
    let fits' : Fits n w.0 = (fits.0, omega (arith, fits.1, w.2.0)) in
    let r = add_loop-Adds k (suc i) h n w.0 fits' in
    (
      r.0,
      rw (ne→== n 0 (λ e. absurd (omega (arith, e, fits.0))), w.1, r.1),
      (r.2.0 ∙ w.2.0, (r.2.2 (position h i n) w.2.1, r.2.1), λ q s. r.2.2 q (w.2.2 q s)),
    )
