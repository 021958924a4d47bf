-- ===== src/Transport/BoundedQueue.antt =====
-- shared/transport/bounded_queue.h: the queue with a capacity, and the buffer of bytes with one.
-- Front first; the counters of drops are 64 bits wide.
pub mod Window
pub mod Bytes
use espview.Base.{
  ℕ, ◌+◌, ◌-◌, Bool, true, false, not, ◌&&◌, ◌||◌, List, [], ◌∷◌, ◌++◌, Option, none, some, ltb,
  leb, ◌==◌, if◌then◌else◌, length, take,
}
use espview.Base.Word.{u64}

pub record BoundedQueue {ℓ} (T : Type ℓ) : Type ℓ where
  pub capacity : ℕ
  pub buf : List T
  pub dropped : ℕ

abbrev pub front {ℓ} : {T : Type ℓ} → List T → List T
front [] = []
front (x ∷ xs) = x ∷ []

abbrev pub pop_front {ℓ} : {T : Type ℓ} → List T → List T
pop_front [] = []
pop_front (x ∷ xs) = xs

module _ {ℓ} {T : Type ℓ} where
  abbrev pub init : ℕ → BoundedQueue T
  init capacity = record { capacity = capacity; buf = []; dropped = 0 }

  abbrev drop_one : BoundedQueue T → BoundedQueue T
  drop_one q = record q { dropped = u64 (q.dropped + 1) }

  -- What `push` returns, the queue afterwards, and the elements that `onDrop` was called with.
  unfoldable pub push : T → Bool → BoundedQueue T → Bool × BoundedQueue T × List T
  push v drop_oldest q =
      if q.capacity == 0
      then (false, drop_one q, [])
      else if leb q.capacity (length q.buf)
      then (if drop_oldest
          then (true, record (drop_one q) { buf = pop_front q.buf ++ (v ∷ []) }, front q.buf)
          else (false, drop_one q, []))
      else (true, record q { buf = q.buf ++ (v ∷ []) }, [])

  unfoldable pub pop : BoundedQueue T → Option T × BoundedQueue T
  pop q = elim q.buf [ [] ↦ (none, q) | x ∷ xs ↦ (some x, record q { buf = xs }) ]

  unfoldable pub clear : BoundedQueue T → BoundedQueue T
  clear q = record q { buf = [] }

  unfoldable pub take_all : BoundedQueue T → List T × BoundedQueue T
  take_all q = (q.buf, record q { buf = [] })

  unfoldable pub take_dropped : BoundedQueue T → ℕ × BoundedQueue T
  take_dropped q = (q.dropped, record q { dropped = 0 })

pub record BoundedByteBuffer : Type 0 where
  pub capacity : ℕ
  pub buf : List ℕ
  pub dropped : ℕ

-- The null pointer is `none`, with its length.
unfoldable pub append : Option (List ℕ) → ℕ → BoundedByteBuffer → BoundedByteBuffer
append none len b =
    if ltb 0 len && b.capacity == 0 then record b { dropped = u64 (b.dropped + len) } else b
append (some bytes) len b =
    if len == 0 || b.capacity == 0
    then (if ltb 0 len && b.capacity == 0 then record b { dropped = u64 (b.dropped + len) } else b)
    else if ltb b.capacity (length b.buf + len)
    then (let keep = if ltb (length b.buf) b.capacity then b.capacity - length b.buf else 0 in
        record b {
          dropped = u64 (b.dropped + (length b.buf + len - b.capacity));
          buf = if ltb 0 keep then b.buf ++ take keep bytes else b.buf;
        })
    else record b { buf = b.buf ++ take len bytes }

unfoldable pub take_all_bytes : BoundedByteBuffer → List ℕ × BoundedByteBuffer
take_all_bytes b = (b.buf, record b { buf = [] })

unfoldable pub clear_bytes : BoundedByteBuffer → BoundedByteBuffer
clear_bytes b = record b { buf = [] }

unfoldable pub take_dropped_bytes : BoundedByteBuffer → ℕ × BoundedByteBuffer
take_dropped_bytes b = (b.dropped, record b { dropped = 0 })
