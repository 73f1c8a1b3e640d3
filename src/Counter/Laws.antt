-- ===== src/Counter/Laws.antt =====
-- src/hive/counter.rs: the packed word and the pair of numbers that it stands for.
use native.Mathlib.Nat.{mod-eq_of_lt, pow-le-pow_right, mul-le-mul_left, add-mod_right}
use procpool.Common.{
  ℕ, ◌+◌, ◌-◌, ◌*◌, ◌/◌, ◌%◌, ◌^◌, ◌≤◌, ◌<◌, ◌≡◌, sym, ap, ◌∙◌, arith, ltb, leb, if◌then◌else◌,
  Result, ok, err, Exec, done, dec_lt,
}
use procpool.Counter.Arith.{pow_add, pow_pos, packed-mod, packed-div, packed-wrap}
use procpool.Counter.{
  CounterError, left_overflow, right_overflow, left_underflow, right_underflow, r_bits, get,
  increment_left, decrement_right, transfer,
}

-- The word of the pair `(l, r)`.
abbrev pub pack : ℕ → ℕ → ℕ → ℕ
pack k l r = r * 2 ^ k + l

-- What the operations do to the pair. Each fails in two ways: before it touches the pair, or after.
abbrev pub increment_pair : ℕ → ℕ → ℕ → ℕ → Exec ℕ (Result ℕ CounterError)
increment_pair k n l r =
    if ltb (l + n) (2 ^ k)
    then done (ok l) (pack k (l + n) r)
    else if ltb n (2 ^ k)
    then done (err left_overflow) (pack k (l + n - 2 ^ k) ((r + 1) % 2 ^ r_bits k))
    else done (err left_overflow) (pack k l r)

abbrev pub decrement_pair : ℕ → ℕ → ℕ → ℕ → Exec ℕ (Result ℕ CounterError)
decrement_pair k n l r =
    if leb n r
    then done (ok r) (pack k l (r - n))
    else if ltb n (2 ^ r_bits k)
    then done (err right_underflow) (pack k l (r + 2 ^ r_bits k - n))
    else done (err right_underflow) (pack k l r)

abbrev pub transfer_pair : ℕ → ℕ → ℕ → ℕ → Exec ℕ (Result (ℕ × ℕ) CounterError)
transfer_pair k n l r =
    if leb (2 ^ k) n
    then done (err left_underflow) (pack k l r)
    else if leb (2 ^ r_bits k) n
    then done (err right_overflow) (pack k l r)
    else if ltb l n
    then done (err left_underflow) (pack k (l + 2 ^ k - n) ((r + n - 1) % 2 ^ r_bits k))
    else if ltb (r + n) (2 ^ r_bits k)
    then done (ok (l, r)) (pack k (l - n) (r + n))
    else done (err right_overflow) (pack k (l - n) ((r + n) % 2 ^ r_bits k))

module _ (k : ℕ) (wide : 1 ≤ k) (narrow : k ≤ 63) where
  pow_split : 2 ^ k * 2 ^ r_bits k ≡ 2 ^ 64
  pow_split =
      let e : k + r_bits k ≡ 64 = omega arith in
      sym (pow_add k (r_bits k)) ∙ ap (λ (t : ℕ). 2 ^ t) e

  halves : (2 ^ k ≤ 2 ^ 63) × (2 ^ r_bits k ≤ 2 ^ 63)
  halves =
      (pow-le-pow_right (omega arith) narrow, pow-le-pow_right (omega arith) {j = 63} (omega arith))

  wrap : (l r : ℕ) → l < 2 ^ k → (r * 2 ^ k + l) % 2 ^ 64 ≡ pack k l (r % 2 ^ r_bits k)
  wrap l r left =
      rw (← pow_split) (packed-wrap (2 ^ k) (2 ^ r_bits k) r l left (pow_pos (r_bits k)))

  wrap_small : (l r : ℕ) → l < 2 ^ k → r < 2 ^ r_bits k → (r * 2 ^ k + l) % 2 ^ 64 ≡ pack k l r
  wrap_small l r left right = wrap l r left ∙ ap (pack k l) (mod-eq_of_lt right)

  module _ (l r : ℕ) (left : l < 2 ^ k) (right : r < 2 ^ r_bits k) where
    -- For a left part of 1 to 63 bits, and a word whose parts fit, `get` gives back the two
    -- parts.
    pub get-pack : get k (pack k l r) ≡ (l, r)
    unfolding get
    get-pack = rw (packed-mod (2 ^ k) l r left, packed-div (2 ^ k) l r left)

    left_of : pack k l r % 2 ^ k ≡ l
    left_of = packed-mod (2 ^ k) l r left

    right_of : pack k l r / 2 ^ k ≡ r
    right_of = packed-div (2 ^ k) l r left

    add_within : (n : ℕ) → l + n < 2 ^ k → (pack k l r + n) % 2 ^ 64 ≡ pack k (l + n) r
    add_within n h =
        let e : pack k l r + n ≡ pack k (l + n) r = omega arith in
        rw e (wrap_small (l + n) r h right)

    add_carry :
        (n : ℕ)
        → 2 ^ k ≤ l + n
        → n < 2 ^ k
        → (pack k l r + n) % 2 ^ 64 ≡ pack k (l + n - 2 ^ k) ((r + 1) % 2 ^ r_bits k)
    add_carry n h small =
        let e : pack k l r + n ≡ (r + 1) * 2 ^ k + (l + n - 2 ^ k) = omega arith in
        rw e (wrap (l + n - 2 ^ k) (r + 1) (omega arith))

    -- For a left part of 1 to 63 bits, and a word whose parts fit, `increment_left` adds any `n`
    -- as `increment_pair` does to the pair of parts: with the previous left part as its result
    -- where the sum fits; with an error and a carry into the right part where it does not; and
    -- with an error and no change where `n` itself does not fit.
    pub increment_left-pack : (n : ℕ) → increment_left k n (pack k l r) ≡ increment_pair k n l r
    unfolding increment_left
    increment_left-pack n = ground (arith, left_of, add_within n, add_carry n, halves, pow_pos k)

    shl_within : (n : ℕ) → n < 2 ^ r_bits k → n * 2 ^ k % 2 ^ 64 ≡ n * 2 ^ k
    shl_within n h =
        let e : n * 2 ^ k ≡ n * 2 ^ k + 0 = omega arith in rw e (wrap_small 0 n (pow_pos k) h)

    sub_within : (n : ℕ) → n ≤ r → (pack k l r + 2 ^ 64 - n * 2 ^ k) % 2 ^ 64 ≡ pack k l (r - n)
    sub_within n h =
        let d : (r - n) * 2 ^ k + n * 2 ^ k ≡ r * 2 ^ k = product in
        let e : pack k l r + 2 ^ 64 - n * 2 ^ k ≡ (r - n + 2 ^ r_bits k) * 2 ^ k + l =
          omega (arith, pow_split, d) in
        rw e (wrap l (r - n + 2 ^ r_bits k) left ∙ ap (pack k l) wrapped)
      where
        product : (r - n) * 2 ^ k + n * 2 ^ k ≡ r * 2 ^ k
        product =
            let e : r ≡ (r - n) + n = omega arith in omega (arith, ap (λ (t : ℕ). t * 2 ^ k) e)

        wrapped : (r - n + 2 ^ r_bits k) % 2 ^ r_bits k ≡ r - n
        wrapped = add-mod_right (r - n) (2 ^ r_bits k) ∙ mod-eq_of_lt (omega arith)

    sub_borrow :
        (n : ℕ)
        → r < n
        → n < 2 ^ r_bits k
        → (pack k l r + 2 ^ 64 - n * 2 ^ k) % 2 ^ 64 ≡ pack k l (r + 2 ^ r_bits k - n)
    sub_borrow n h small =
        let m : ℕ = r + 2 ^ r_bits k - n in
        let d : m * 2 ^ k + n * 2 ^ k ≡ (r + 2 ^ r_bits k) * 2 ^ k = product in
        let e : pack k l r + 2 ^ 64 - n * 2 ^ k ≡ m * 2 ^ k + l = omega (arith, pow_split, d) in
        rw e (wrap_small l m left (omega arith))
      where
        product : (r + 2 ^ r_bits k - n) * 2 ^ k + n * 2 ^ k ≡ (r + 2 ^ r_bits k) * 2 ^ k
        product =
            let e : r + 2 ^ r_bits k ≡ (r + 2 ^ r_bits k - n) + n = omega arith in
            omega (arith, ap (λ (t : ℕ). t * 2 ^ k) e)

    -- For a left part of 1 to 63 bits, and a word whose parts fit, `decrement_right` subtracts
    -- any `n` as `decrement_pair` does from the pair of parts: with the previous right part as
    -- its result where it is at least `n`; with an error and a wrapped right part where it is
    -- not; and with an error and no change where `n` does not fit.
    pub decrement_right-pack : (n : ℕ) → decrement_right k n (pack k l r) ≡ decrement_pair k n l r
    unfolding decrement_right
    decrement_right-pack n =
        ground
          (arith, right_of, shl_within n, sub_within n, sub_borrow n, halves, pow_pos (r_bits k))

    le-shl : (n : ℕ) → n ≤ n * 2 ^ k
    le-shl n = omega (arith, mul-le-mul_left n (pow_pos k))

    move_within :
        (n : ℕ)
        → n ≤ l
        → (pack k l r + (n * 2 ^ k - n)) % 2 ^ 64 ≡ pack k (l - n) ((r + n) % 2 ^ r_bits k)
    move_within n h =
        let e : pack k l r + (n * 2 ^ k - n) ≡ (r + n) * 2 ^ k + (l - n) =
          omega (arith, le-shl n) in
        rw e (wrap (l - n) (r + n) (omega arith))

    move_borrow :
        (n : ℕ)
        → l < n
        → n < 2 ^ k
        → (pack k l r + (n * 2 ^ k - n)) % 2 ^ 64
          ≡ pack k (l + 2 ^ k - n) ((r + n - 1) % 2 ^ r_bits k)
    move_borrow n h small =
        let d : r + n ≡ r + n - 1 + 1 = omega arith in
        let e : pack k l r + (n * 2 ^ k - n) ≡ (r + n - 1) * 2 ^ k + (l + 2 ^ k - n) =
          omega (arith, le-shl n, ap (λ (t : ℕ). t * 2 ^ k) d) in
        rw e (wrap (l + 2 ^ k - n) (r + n - 1) (omega arith))

    -- For a left part of 1 to 63 bits, and a word whose parts fit, `transfer` moves any `n` as
    -- `transfer_pair` does on the pair of parts: with the previous parts as its result where the
    -- left part is at least `n` and the right part has room; otherwise with an error, after the
    -- parts are changed and wrapped, or, where `n` does not fit in a part, with no change.
    pub transfer-pack : (n : ℕ) → transfer k n (pack k l r) ≡ transfer_pair k n l r
    unfolding transfer
    transfer-pack n = elim (dec_lt n (2 ^ k)) [
      | no h ↦ ground arith
      | yes small ↦ elim (dec_lt n (2 ^ r_bits k)) [
        | no h ↦ ground arith
        | yes fits ↦ elim (dec_lt l n) [
          | yes short ↦
              ground
                (arith, left_of, shl_within n fits, le-shl n, move_borrow n short small, halves)
          | no h ↦ ground (
            arith,
            left_of,
            right_of,
            shl_within n fits,
            le-shl n,
            move_within n,
            halves,
            mod-eq_of_lt {n = r + n} {m = 2 ^ r_bits k},
          )
        ]
      ]
    ]

    -- For a left part of 1 to 63 bits, and a word whose parts fit, the three operations on the word do
    -- with any `n` what the same operations do on the pair of its parts, results, errors and the word
    -- that they leave: `increment_pair` carries into the right part where the sum does not fit,
    -- `decrement_pair` wraps the right part where it is too small, `transfer_pair` wraps either, each
    -- with an error; and all three refuse an `n` that does not fit, and change nothing.
    pub operations-pack :
        (n : ℕ)
        → (increment_left k n (pack k l r) ≡ increment_pair k n l r)
          × (decrement_right k n (pack k l r) ≡ decrement_pair k n l r)
          × (transfer k n (pack k l r) ≡ transfer_pair k n l r)
    operations-pack n = (increment_left-pack n, decrement_right-pack n, transfer-pack n)
