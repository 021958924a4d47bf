-- ===== src/Transport/BoundedQueue/Bytes.antt =====
-- shared/transport/bounded_queue.h: an append to the buffer of bytes.
use espview.Base.{
  ℕ, zero, suc, ◌+◌, ◌-◌, ◌^◌, ◌≤◌, ◌<◌, ◌≡◌, refl, sym, ap, ◌∙◌, arith, true, false, List, [], ◌∷◌,
  ◌++◌, some, ltb, ◌==◌, if◌then◌else◌, length, take, length-append, take-all, take-at, append-nil,
  lt→ltb, not_lt→ltb,
}
use native.Mathlib.Decide.{dec_le}
use espview.Base.Word.{u64}
use espview.Transport.BoundedQueue.{BoundedByteBuffer, append}

pub record IsBounded (b : BoundedByteBuffer) : Type 0 where
  pub size : length b.buf ≤ b.capacity
  pub count : b.dropped < 2 ^ 64

-- What is kept, and what is counted.
pub record Appended (bytes : List ℕ) (b b' : BoundedByteBuffer) : Type 0 where
  pub capacity : b'.capacity ≡ b.capacity
  pub buf : b'.buf ≡ take b.capacity (b.buf ++ bytes)
  pub dropped : b'.dropped ≡ u64 (b.dropped + (length (b.buf ++ bytes) - b.capacity))

not_empty : (n : ℕ) → 0 < n → (n == 0) ≡ false
not_empty n p = ground arith

empty_test : (n : ℕ) → n ≡ 0 → (n == 0) ≡ true
empty_test n e = ground arith

empty : (xs : List ℕ) → length xs ≤ 0 → xs ≡ []
empty [] l = refl
empty (x ∷ xs) l = absurd (omega arith)

take_more :
    (n : ℕ) (xs ys : List ℕ) → length xs ≤ n → take n (xs ++ ys) ≡ xs ++ take (n - length xs) ys
take_more n [] ys l = rw (let e : n - 0 ≡ n = omega arith in e) refl
take_more zero (x ∷ xs) ys l = absurd (omega arith)
take_more (suc n) (x ∷ xs) ys l =
    let e : suc n - suc (length xs) ≡ n - length xs = omega arith in
    rw e (ap (λ zs. x ∷ zs) (take_more n xs ys (omega arith)))

-- The cases of an append, over the numbers that they depend on.
append_room :
    (bytes : List ℕ) (b : BoundedByteBuffer)
    → 0 < length bytes
    → length b.buf + length bytes ≤ b.capacity
    → append (some bytes) (length bytes) b ≡ record b { buf = b.buf ++ bytes }
unfolding append
append_room bytes b p l =
    rw
      (
        not_empty (length bytes) p,
        not_empty b.capacity (omega arith),
        not_lt→ltb b.capacity (length b.buf + length bytes) l,
        take-all (length bytes) bytes (omega arith),
      )
      refl

append_nothing : (b : BoundedByteBuffer) → append (some []) 0 b ≡ b
unfolding append
append_nothing b = refl

append_none :
    (bytes : List ℕ) (b : BoundedByteBuffer)
    → b.capacity ≡ 0
    → 0 < length bytes
    → append (some bytes) (length bytes) b ≡ record b { dropped = u64 (b.dropped + length bytes) }
unfolding append
append_none bytes b c p =
    rw (not_empty (length bytes) p, lt→ltb 0 (length bytes) p, empty_test b.capacity c) refl

append_over :
    (bytes : List ℕ) (b : BoundedByteBuffer)
    → 0 < b.capacity
    → b.capacity < length b.buf + length bytes
    → 0 < length bytes
    → append (some bytes) (length bytes) b ≡ record b {
      dropped = u64 (b.dropped + (length b.buf + length bytes - b.capacity));
      buf =
          if ltb 0 (if ltb (length b.buf) b.capacity then b.capacity - length b.buf else 0)
          then b.buf
            ++ take (if ltb (length b.buf) b.capacity then b.capacity - length b.buf else 0) bytes
          else b.buf;
    }
unfolding append
append_over bytes b c l p =
    rw
      (
        not_empty (length bytes) p,
        not_empty b.capacity c,
        lt→ltb b.capacity (length b.buf + length bytes) l,
      )
      refl

kept :
    (n : ℕ) (buf bytes : List ℕ)
    → length buf ≤ n
    → (let keep = if ltb (length buf) n then n - length buf else 0 in
        (if ltb 0 keep then buf ++ take keep bytes else buf))
      ≡ take n (buf ++ bytes)
kept n buf bytes l = elim (dec_le n (length buf)) [
  | yes h ↦ rw (not_lt→ltb (length buf) n h) (sym (take-at n buf bytes (omega arith)))
  | no h ↦
      rw (lt→ltb (length buf) n (omega arith), lt→ltb 0 (n - length buf) (omega arith))
        (sym (take_more n buf bytes l))
]

-- A byte that the capacity has room for behind those that are buffered is kept, in order, and every
-- other byte of the call is counted, whatever the call's length.
pub append-Appended :
    (bytes : List ℕ) (b : BoundedByteBuffer)
    → IsBounded b
    → Appended bytes b (append (some bytes) (length bytes) b)
append-Appended [] b v = rw (append_nothing b) (record {
  capacity = refl;
  buf = rw (append-nil b.buf) (sym (take-all b.capacity b.buf v.size));
  dropped = rw (append-nil b.buf) (omega (arith, v.count, v.size));
})
append-Appended (x ∷ xs) b v = elim (dec_le b.capacity 0) [
  | yes none_fits ↦
      (let none_held : b.buf ≡ [] = empty b.buf (omega (arith, v.size)) in
        let none_kept : b.capacity ≡ 0 = omega arith in
        rw (append_none (x ∷ xs) b (omega arith) (omega arith)) (record {
          capacity = refl;
          buf = none_held ∙ ap (λ (n : ℕ). take n (b.buf ++ (x ∷ xs))) (sym none_kept);
          dropped = omega (arith, length-append b.buf (x ∷ xs), v.size);
        }))
  | no positive ↦ elim (dec_le (length b.buf + suc (length xs)) b.capacity) [
    | yes l ↦
        (let size = length-append b.buf (x ∷ xs) in
          rw (append_room (x ∷ xs) b (omega arith) l) (record {
            capacity = refl;
            buf = sym (take-all b.capacity (b.buf ++ (x ∷ xs)) (omega arith));
            dropped = omega (arith, v.count);
          }))
    | no l ↦ rw (append_over (x ∷ xs) b (omega arith) (omega arith) (omega arith)) (record {
      capacity = refl;
      buf = kept b.capacity b.buf (x ∷ xs) v.size;
      dropped = omega (arith, length-append b.buf (x ∷ xs));
    })
  ]
]
