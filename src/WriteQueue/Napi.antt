-- ===== src/WriteQueue/Napi.antt =====
-- src/write_queue.cc: `EnqueueWrite` as JavaScript calls it.
-- An argument is what the code reads of it: a BigInt as its 64-bit value, a number as its int32, a
-- buffer as the bytes of its ArrayBuffer with, for a typed array, the view's offset and length.
use fuse_native.Base.{
  ℕ, zero, suc, ap, sym, ◌∙◌, ◌≤◌, ◌<◌, ◌≡◌, ◌≢◌, refl, Bool, false, Option, none, some, List, [],
  ◌∷◌, ltb, ◌==◌, if◌then◌else◌, arith, length, take, drop,
}
use fuse_native.Base.Int.{ℤ, pos, negsuc}
use fuse_native.WriteQueue.{WriteOperationPriority, urgent, high, normal, low, WriteOperation}
use fuse_native.WriteQueue.Manager.{WriteQueueManager, enqueue_write}

pub data BufferArg : Type 0 where
  array_buffer : List ℕ → BufferArg
  typed_array : (buffer : List ℕ) (byte_offset byte_length : ℕ) → BufferArg
  other : BufferArg

pub record EnqueueArgs : Type 0 where
  pub fd : ℕ
  pub offset : ℕ
  pub size : ℕ
  pub buffer : BufferArg
  pub priority : Option ℤ
  pub callback : Bool

-- `none` for fewer than four arguments.
abbrev CallbackInfo : Type 0
CallbackInfo = Option EnqueueArgs

-- The bytes from `buffer_data` on, and `buffer_size`.
unfoldable buffer_arg : BufferArg → Option (List ℕ × ℕ)
buffer_arg (array_buffer bytes) = some (bytes, length bytes)
buffer_arg (typed_array bytes byte_offset byte_length) = some (bytes, byte_length)
buffer_arg other = none

unfoldable priority_arg : Option ℤ → WriteOperationPriority
priority_arg none = normal
priority_arg (some (negsuc n)) = normal
priority_arg (some (pos n)) =
    if n == 0
    then urgent
    else if n == 1
    then high
    else if n == 2
    then normal
    else if n == 3
    then low
    else normal

pub data EnqueueError : Type 0 where
  too_few_arguments not_a_buffer size_exceeds_buffer not_initialized : EnqueueError

pub data Outcome : Type 0 where
  throws : EnqueueError → Outcome
  returns : ℕ → WriteQueueManager → Outcome

-- The operation that the arguments describe, at a time; its error callback is never set.
unfoldable make_operation : EnqueueArgs → List ℕ → ℕ → WriteOperation
make_operation a bytes now = record {
  fd = a.fd;
  offset = a.offset;
  size = a.size;
  buffer = bytes;
  priority = priority_arg a.priority;
  timestamp = now;
  has_completion = a.callback;
  has_error = false;
  operation_id = 0;
}

unfoldable enqueue_write_call : Option WriteQueueManager → CallbackInfo → ℕ → Outcome
enqueue_write_call manager none now = throws too_few_arguments
enqueue_write_call manager (some a) now = elim (buffer_arg a.buffer) [
  | none ↦ throws not_a_buffer
  | some (bytes, buffer_size) ↦
      if ltb buffer_size a.size then throws size_exceeds_buffer else elim manager [
        | none ↦ throws not_initialized
        | some m ↦
            let r = enqueue_write m a.fd (some (make_operation a bytes now)) in returns r.0 r.1
      ]
]

-- The bytes that an executor is given: `size` of them from the pointer on.
abbrev payload : WriteOperation → List ℕ
payload x = take x.size x.buffer

-- The bytes that the caller passed.
abbrev viewed : BufferArg → List ℕ
viewed (array_buffer bytes) = bytes
viewed (typed_array bytes byte_offset byte_length) = take byte_length (drop byte_offset bytes)
viewed other = []

abbrev view_offset : BufferArg → ℕ
view_offset (typed_array bytes byte_offset byte_length) = byte_offset
view_offset _ = 0

take-take : (s l : ℕ) (xs : List ℕ) → s ≤ l → take s (take l xs) ≡ take s xs
take-take zero l xs h = refl
take-take (suc s) zero xs h = absurd (omega arith)
take-take (suc s) (suc l) [] h = refl
take-take (suc s) (suc l) (x ∷ xs) h = ap (◌∷◌ x) (take-take s l xs (omega arith))

heads_differ :
    (s l x y : ℕ) (xs ys : List ℕ)
    → 0 < s
    → 0 < l
    → x ≢ y
    → take s (x ∷ xs) ≢ take s (take l (y ∷ ys))
heads_differ zero l x y xs ys p q h = absurd (omega arith)
heads_differ (suc s) zero x y xs ys p q h = absurd (omega arith)
heads_differ (suc s) (suc l) x y xs ys p q h = λ e. h (cc e)

-- The operation that `EnqueueWrite` makes of an ArrayBuffer, or of a typed array that starts at its
-- buffer's start, carries the first `size` bytes that the caller passed.
make_operation-viewed :
    (a : EnqueueArgs) (bytes : List ℕ) (buffer_size now : ℕ)
    → buffer_arg a.buffer ≡ some (bytes, buffer_size)
    → a.size ≤ buffer_size
    → view_offset a.buffer ≡ 0
    → payload (make_operation a bytes now) ≡ take a.size (viewed a.buffer)
unfolding make_operation buffer_arg
make_operation-viewed a bytes buffer_size now e h z = carried a.buffer e z
  where
    carried :
        (b : BufferArg)
        → buffer_arg b ≡ some (bytes, buffer_size)
        → view_offset b ≡ 0
        → take a.size bytes ≡ take a.size (viewed b)
    carried (array_buffer xs) e z = ground arith
    carried (typed_array xs zero l) e z = ground (arith, take-take a.size l bytes)
    carried (typed_array xs (suc o) l) e z = absurd (omega arith)
    carried other e z = cc

-- Of a typed array that starts elsewhere the operation carries the bytes from the buffer's start:
-- where the first of those differs from the first byte of the view, other bytes are written than
-- were passed.
make_operation-typed_array :
    (a : EnqueueArgs) (bytes xs ys : List ℕ) (x y byte_offset byte_length now : ℕ)
    → a.buffer ≡ typed_array bytes byte_offset byte_length
    → bytes ≡ x ∷ xs
    → drop byte_offset bytes ≡ y ∷ ys
    → x ≢ y
    → 0 < a.size
    → 0 < byte_length
    → payload (make_operation a bytes now) ≢ take a.size (viewed a.buffer)
unfolding make_operation
make_operation-typed_array a bytes xs ys x y o l now e f g h s k q =
    heads_differ a.size l x y xs ys s k h (
      sym (ap (take a.size) f)
      ∙ q
      ∙ ap (λ b. take a.size (viewed b)) e
      ∙ ap (λ d. take a.size (take l d)) g)
