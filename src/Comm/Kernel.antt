-- ===== src/Comm/Kernel.antt =====
-- The kernel's socket calls, which mattx_comm.c uses and does not implement.
use mattx.Base.{ℕ, ◌<◌, ◌≤◌, ◌≡◌, List, ◌++◌, Bool, Option, some, length, take}

-- What kernel_recvmsg returns: `ret <= 0`, as 0 or -code, or the bytes it has put into the buffer.
pub data Recv : Type 0 where
  stopped : ℕ → Recv
  got : List ℕ → Recv

-- The receiving end of a TCP connection. `pending s` is what the peer has sent and the receiver
-- has not taken.
pub record Inbound : Type 1 where
  pub S : Type 0
  pub recvmsg : S → ℕ → Recv × S
  pub kvmalloc : S → ℕ → Bool
  pub pending : S → List ℕ
  -- TCP hands the bytes over in order, none lost and none twice,
  pub in_order :
      (s : S) (n : ℕ) (bs : List ℕ) (s' : S)
      → recvmsg s n ≡ (got bs, s')
      → pending s ≡ bs ++ pending s'
  -- at least one and at most as many as asked for,
  pub in_size :
      (s : S) (n : ℕ) (bs : List ℕ) (s' : S)
      → recvmsg s n ≡ (got bs, s')
      → (0 < length bs) × (length bs ≤ n)
  -- and the call does not fail while all that it asks for is there.
  pub ready :
      (s : S) (n : ℕ)
      → 0 < n
      → n ≤ length (pending s)
      → (bs : List ℕ) × (s' : S) × (recvmsg s n ≡ (got bs, s'))

-- What kernel_sendmsg returns: `ret <= 0`, as 0 or -code, or the number of bytes taken.
pub data Sent : Type 0 where
  refused : ℕ → Sent
  took : ℕ → Sent

-- The sending end. `wire s` is all that has gone out; kvmalloc gives NULL or a buffer with whatever
-- it held before.
pub record Outbound : Type 1 where
  pub S : Type 0
  pub sendmsg : S → List ℕ → Sent × S
  pub kvmalloc : S → ℕ → Option (List ℕ)
  pub wire : S → List ℕ
  pub sends :
      (s : S) (bs : List ℕ) (n : ℕ) (s' : S)
      → sendmsg s bs ≡ (took n, s')
      → wire s' ≡ wire s ++ take n bs
  pub sends_some :
      (s : S) (bs : List ℕ) (n : ℕ) (s' : S)
      → sendmsg s bs ≡ (took n, s')
      → (0 < n) × (n ≤ length bs)
  pub keeps :
      (s : S) (bs : List ℕ) (n : ℕ) (s' : S) → sendmsg s bs ≡ (refused n, s') → wire s' ≡ wire s
  pub buffer_size : (s : S) (n : ℕ) (buf : List ℕ) → kvmalloc s n ≡ some buf → length buf ≡ n
