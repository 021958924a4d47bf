-- ===== src/Transport/Tests.antt =====
-- A queue and a buffer that overflow, and the theorems applied to them.
use espview.Base.{ℕ, ◌≡◌, refl, arith, true, [], ◌∷◌, some}
use espview.Transport.BoundedQueue.{BoundedQueue, BoundedByteBuffer, append}
use espview.Transport.BoundedQueue
use espview.Transport.BoundedQueue.Window.{push_all, Pushed, push_all-Pushed}
use espview.Transport.BoundedQueue.Window
use espview.Transport.BoundedQueue.Bytes.{Appended, append-Appended}
use espview.Transport.BoundedQueue.Bytes

abbrev queue : BoundedQueue ℕ
queue = record { capacity = 2; buf = 1 ∷ []; dropped = 0 }

queue-IsBounded : Window.IsBounded queue
queue-IsBounded = record { positive = omega arith; size = omega arith; count = omega arith }

newest_two : (push_all (2 ∷ 3 ∷ []) true queue).buf ≡ 2 ∷ (3 ∷ [])
unfolding push_all BoundedQueue.push
newest_two = refl

push_all-Pushed_example : Pushed true (2 ∷ 3 ∷ []) queue (push_all (2 ∷ 3 ∷ []) true queue)
push_all-Pushed_example = push_all-Pushed (2 ∷ 3 ∷ []) true queue queue-IsBounded

abbrev buffer : BoundedByteBuffer
buffer = record { capacity = 4; buf = 1 ∷ 2 ∷ []; dropped = 5 }

buffer-IsBounded : Bytes.IsBounded buffer
buffer-IsBounded = record { size = omega arith; count = omega arith }

append-Appended_example : Appended (3 ∷ 4 ∷ 5 ∷ []) buffer (append (some (3 ∷ 4 ∷ 5 ∷ [])) 3 buffer)
append-Appended_example = append-Appended (3 ∷ 4 ∷ 5 ∷ []) buffer buffer-IsBounded
