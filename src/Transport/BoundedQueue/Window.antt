-- ===== src/Transport/BoundedQueue/Window.antt =====
-- shared/transport/bounded_queue.h: the queue under pushes.
use espview.Base.{
  ℕ, zero, suc, ◌+◌, ◌-◌, ◌≤◌, ◌<◌, ◌≡◌, refl, sym, ap, ◌∙◌, arith, Bool, true, false, List, [],
  ◌∷◌, ◌++◌, ◌==◌, if◌then◌else◌, length, take, drop, drop-drop, take-at, min, ◌^◌, length-append,
  length-take, length-drop, take-all, append_assoc, drop-append_le, append-nil, le→leb, lt→leb,
}
use native.Mathlib.Decide.{dec_le}
use espview.Base.Word.{u64}
use espview.Transport.BoundedQueue.{BoundedQueue, push, pop_front}

not_empty : (n : ℕ) → 0 < n → (n == 0) ≡ false
not_empty n p = ground arith

module _ {ℓ} {T : Type ℓ} where
  -- One push after the other, by one policy.
  unfoldable pub push_all : List T → Bool → BoundedQueue T → BoundedQueue T
  push_all [] drop_oldest q = q
  push_all (v ∷ vs) drop_oldest q =
      let (ok, q', dropped) = push v drop_oldest q in push_all vs drop_oldest q'

  -- The window that a policy keeps of all the elements in order.
  abbrev pub window : Bool → ℕ → List T → List T
  window drop_oldest n xs = if drop_oldest then drop (length xs - n) xs else take n xs

  take-take_append : (n : ℕ) (xs ys : List T) → take n (take n xs ++ ys) ≡ take n (xs ++ ys)
  take-take_append zero xs ys = refl
  take-take_append (suc n) [] ys = refl
  take-take_append (suc n) (x ∷ xs) ys = ap (λ zs. x ∷ zs) (take-take_append n xs ys)

  drop-drop_append :
      (n : ℕ) (xs ys : List T)
      → drop (length (drop (length xs - n) xs ++ ys) - n) (drop (length xs - n) xs ++ ys)
        ≡ drop (length (xs ++ ys) - n) (xs ++ ys)
  drop-drop_append n xs ys =
      let k = length xs - n in
      let shorter = length-drop k xs in
      let l = length-append (drop k xs) ys in
      let m = length-append xs ys in
      let sum : k + (length (drop k xs ++ ys) - n) ≡ length (xs ++ ys) - n = omega arith in
      ap (drop (length (drop k xs ++ ys) - n)) (sym (drop-append_le k xs ys (omega arith)))
      ∙ drop-drop k (length (drop k xs ++ ys) - n) (xs ++ ys)
      ∙ ap (λ (j : ℕ). drop j (xs ++ ys)) sum

  -- A push with room, and one without, by either policy.
  push_room :
      (v : T) (drop_oldest : Bool) (q : BoundedQueue T)
      → length q.buf < q.capacity
      → (push v drop_oldest q).1 ≡ record q { buf = q.buf ++ (v ∷ []) }
  unfolding push
  push_room v drop_oldest q l =
      rw (not_empty q.capacity (omega arith), lt→leb (length q.buf) q.capacity l) refl

  push_oldest :
      (v : T) (q : BoundedQueue T)
      → 0 < q.capacity
      → q.capacity ≤ length q.buf
      → (push v true q).1
        ≡ record q { dropped = u64 (q.dropped + 1); buf = pop_front q.buf ++ (v ∷ []) }
  unfolding push
  push_oldest v q p l = rw (not_empty q.capacity p, le→leb q.capacity (length q.buf) l) refl

  push_newest :
      (v : T) (q : BoundedQueue T)
      → 0 < q.capacity
      → q.capacity ≤ length q.buf
      → (push v false q).1 ≡ record q { dropped = u64 (q.dropped + 1) }
  unfolding push
  push_newest v q p l = rw (not_empty q.capacity p, le→leb q.capacity (length q.buf) l) refl

  pop_front-drop :
      (xs : List T) (v : T) → 0 < length xs → pop_front xs ++ (v ∷ []) ≡ drop 1 (xs ++ (v ∷ []))
  pop_front-drop [] v p = absurd (omega arith)
  pop_front-drop (x ∷ xs) v p = refl

  -- The queue is within its capacity, and its counter within 64 bits.
  pub record IsBounded (q : BoundedQueue T) : Type ℓ where
    pub positive : 0 < q.capacity
    pub size : length q.buf ≤ q.capacity
    pub count : q.dropped < 2 ^ 64

  -- What a push leaves: the window on what was there and the element, and one more drop if that was
  -- more than the window.
  pub record Pushed (drop_oldest : Bool) (vs : List T) (q q' : BoundedQueue T) : Type ℓ where
    pub capacity : q'.capacity ≡ q.capacity
    pub buf : q'.buf ≡ window drop_oldest q.capacity (q.buf ++ vs)
    pub dropped : q'.dropped ≡ u64 (q.dropped + (length (q.buf ++ vs) - q.capacity))

  window_room :
      (drop_oldest : Bool) (n : ℕ) (xs : List T) → length xs ≤ n → window drop_oldest n xs ≡ xs
  window_room true n xs l = let none_over : length xs - n ≡ 0 = omega arith in rw none_over refl
  window_room false n xs l = take-all n xs l

  room-Pushed :
      (v : T) (drop_oldest : Bool) (q : BoundedQueue T)
      → IsBounded q
      → length q.buf < q.capacity
      → Pushed drop_oldest (v ∷ []) q (push v drop_oldest q).1
  room-Pushed v drop_oldest q b l =
      let size = length-append q.buf (v ∷ []) in
      rw (push_room v drop_oldest q l) (record {
        capacity = refl;
        buf = sym (window_room drop_oldest q.capacity (q.buf ++ (v ∷ [])) (omega arith));
        dropped = omega (arith, b.count);
      })

  full-Pushed :
      (v : T) (drop_oldest : Bool) (q : BoundedQueue T)
      → IsBounded q
      → length q.buf ≡ q.capacity
      → Pushed drop_oldest (v ∷ []) q (push v drop_oldest q).1
  full-Pushed v true q b l =
      let size = length-append q.buf (v ∷ []) in
      let one_over : length (q.buf ++ (v ∷ [])) - q.capacity ≡ 1 = omega arith in
      rw (push_oldest v q b.positive (omega arith)) (record {
        capacity = refl;
        buf = rw one_over (pop_front-drop q.buf v (omega (arith, b.positive)));
        dropped = ap (λ (k : ℕ). u64 (q.dropped + k)) (sym one_over);
      })
  full-Pushed v false q b l =
      let size = length-append q.buf (v ∷ []) in
      let one_over : length (q.buf ++ (v ∷ [])) - q.capacity ≡ 1 = omega arith in
      rw (push_newest v q b.positive (omega arith)) (record {
        capacity = refl;
        buf = sym (take-at q.capacity q.buf (v ∷ []) (sym l));
        dropped = ap (λ (k : ℕ). u64 (q.dropped + k)) (sym one_over);
      })

  push-Pushed :
      (v : T) (drop_oldest : Bool) (q : BoundedQueue T)
      → IsBounded q
      → Pushed drop_oldest (v ∷ []) q (push v drop_oldest q).1
  push-Pushed v drop_oldest q b = elim (dec_le q.capacity (length q.buf)) [
    | yes l ↦ full-Pushed v drop_oldest q b (omega (arith, b.size))
    | no l ↦ room-Pushed v drop_oldest q b (omega arith)
  ]

  length-window :
      (drop_oldest : Bool) (n : ℕ) (xs : List T)
      → length (window drop_oldest n xs) ≡ min n (length xs)
  length-window true n xs = omega (arith, length-drop (length xs - n) xs)
  length-window false n xs = length-take n xs

  window-window :
      (drop_oldest : Bool) (n : ℕ) (xs ys : List T)
      → window drop_oldest n (window drop_oldest n xs ++ ys) ≡ window drop_oldest n (xs ++ ys)
  window-window true n xs ys = drop-drop_append n xs ys
  window-window false n xs ys = take-take_append n xs ys

  -- After any number of pushes by one policy the queue holds the newest elements (`drop_oldest`) or
  -- the oldest ones, as many as its capacity allows, in order; the counter has gone up by the number
  -- of those that are missing, and the capacity is what it was.
  pub push_all-Pushed :
      (vs : List T) (drop_oldest : Bool) (q : BoundedQueue T)
      → IsBounded q
      → Pushed drop_oldest vs q (push_all vs drop_oldest q)
  unfolding push_all
  push_all-Pushed [] drop_oldest q b = record {
    capacity = refl;
    buf = rw (append-nil q.buf) (sym (window_room drop_oldest q.capacity q.buf b.size));
    dropped = rw (append-nil q.buf) (omega (arith, b.count, b.size));
  }
  push_all-Pushed (v ∷ vs) drop_oldest q b =
      let q' = (push v drop_oldest q).1 in
      let one = push-Pushed v drop_oldest q b in
      let size = length-append q.buf (v ∷ []) in
      let all = length-append (q.buf ++ (v ∷ [])) vs in
      let held : length q'.buf ≡ min q.capacity (length (q.buf ++ (v ∷ []))) =
        ap length one.buf ∙ length-window drop_oldest q.capacity (q.buf ++ (v ∷ [])) in
      let b' : IsBounded q' = record {
        positive = omega (arith, one.capacity, b.positive);
        size = omega (arith, one.capacity);
        count = omega (arith, one.dropped);
      } in
      let rest = push_all-Pushed vs drop_oldest q' b' in
      let left = length-append q'.buf vs in
      let joined = append_assoc q.buf (v ∷ []) vs in
      record {
        capacity = rest.capacity ∙ one.capacity;
        buf =
            rest.buf
            ∙ rw (one.capacity, one.buf)
                (window-window drop_oldest q.capacity (q.buf ++ (v ∷ [])) vs)
            ∙ ap (window drop_oldest q.capacity) joined;
        dropped = rest.dropped ∙ omega (arith, one.dropped, one.capacity, b.size, ap length joined);
      }
