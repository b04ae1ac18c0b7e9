-- ===== src/Buffer.antt =====
-- src/rdma_buffer.cc and include/rdma_buffer.h: a buffer that is cut into equal blocks, each of them
-- an RDMABuffer of its own, and handed out round and round by `next` and `last`.
pub mod Layout
pub mod Window
pub mod Ring
pub mod Schedule
pub mod Fill
mod Tests
use rdma_comm_core.Prelude.{
  ℕ, zero, suc, ◌+◌, ◌-◌, ◌*◌, ◌/◌, ◌%◌, ◌^◌, String, ◌≡◌, Bool, true, false, not, ◌&&◌, Option,
  none, some, List, [], ◌∷◌, ◌++◌, ◌==◌, ltb, leb, if◌then◌else◌, length, get_elem?, set, arith,
  Outcome, ok, fault, undefined, log_fatal, ◌>>=◌, ◌>>◌, check, or_undefined,
}
use rdma_comm_core.Prelude.Int.{ℤ, pos, negsuc, incr_int, to_size, size_mod}
use rdma_comm_core.Memory.{Memory, memset, memcpy}

-- The fields of an RDMABuffer but its sub-buffers. A pointer is a number, 0 is nullptr.
pub record Block : Type 0 where
  pub buffer_name : String
  pub buffer_size : ℕ
  pub data_ptr : ℕ
  pub owned_by_channel : ℕ
  pub is_initialized : Bool
  pub mr : ℕ
  pub next_active : ℤ
  pub last_active : ℤ
  pub in_used : Bool
  pub buffer_index : ℤ
  pub is_sub_buffer : Bool
  pub blocks : ℕ

-- A base buffer and its sub-buffers, `buffer_mgr_`. `base_buffer_` is the base in every one.
pub record Buffer : Type 0 where
  pub head : Block
  pub open head use *
  pub buffer_mgr : List Block

-- The initialisers of the members.
abbrev fresh : String → ℕ → ℕ → Bool → Block
fresh name size count sub = record {
  buffer_name = name;
  buffer_size = size;
  data_ptr = 0;
  owned_by_channel = 0;
  is_initialized = false;
  mr = 0;
  next_active = negsuc 0;
  last_active = negsuc 0;
  in_used = false;
  buffer_index = negsuc 0;
  is_sub_buffer = sub;
  blocks = count;
}

-- size_t products and sums
abbrev pub mul_size : ℕ → ℕ → ℕ
mul_size a b = (a * b) % size_mod

abbrev pub add_size : ℕ → ℕ → ℕ
add_size a b = (a + b) % size_mod

-- get_block_size() as an `int`: the uint32_t is stored in `buffer_index`.
abbrev pub as_index : ℕ → ℤ
as_index n = let k = n % 2 ^ 32 in if ltb k (2 ^ 31) then pos k else negsuc (2 ^ 32 - 1 - k)

unfoldable pub get_block_size : Buffer → ℕ
get_block_size b = length b.buffer_mgr % 2 ^ 32

-- The constructor on a sub-buffer.
unfoldable pub sub_buffer : ℕ → String → Buffer → Block
unfolding get_block_size
sub_buffer bytes name base =
    let index = as_index (get_block_size base) in
    record (fresh name (mul_size bytes 1) 1 true) {
      buffer_index = index;
      data_ptr = add_size base.data_ptr (mul_size (to_size index) bytes);
      owned_by_channel = base.owned_by_channel;
      is_initialized = true;
      mr = base.mr;
    }

-- The loop that splits the buffer: `left` blocks remain, and `name` is
-- std::to_string(b_index) + "@" + buffer_info.
unfoldable pub split : (ℕ → String) → ℕ → ℕ → ℕ → Buffer → Buffer
unfolding sub_buffer
split name bytes index zero base = base
split name bytes index (suc left) base =
    split name bytes (index + 1) left
      (record base { buffer_mgr = base.buffer_mgr ++ sub_buffer bytes (name index) base ∷ [] })

-- The constructor on a base buffer, called by allocate_buffer. `memory` is what posix_memalign
-- gives: none where it fails.
unfoldable pub allocate_buffer :
    (ℕ → String) → Option ℕ → ℕ → ℕ → String → Memory → Outcome (Buffer × Memory)
unfolding split
allocate_buffer name memory bytes count info m = do
  let size = mul_size bytes count
  check (ltb 0 size)
  p ← elim memory [ none ↦ fault log_fatal | some p ↦ ok p ]
  let base = record (fresh info size count false) { data_ptr = p }
  let whole = split name bytes 0 count (record { head = base; buffer_mgr = [] })
  ok (record whole { head = record (whole.head) { is_initialized = true } }, memset p 0 bytes m)

-- The destructor: what it leaves in the sub-buffers. `free` is not modelled.
unfoldable pub clean_sub_buffers : List Block → List Block
clean_sub_buffers [] = []
clean_sub_buffers (s ∷ ss) =
    record s { owned_by_channel = 0; data_ptr = 0; mr = 0; is_initialized = false }
    ∷ clean_sub_buffers ss

unfoldable pub security_check : Block → Outcome Bool
security_check b = do
  check (not (b.buffer_size == 0))
  check (not (b.data_ptr == 0))
  check (not (b.owned_by_channel == 0))
  ok true

-- Neither is written yet: both end in LOG(FATAL).
unfoldable pub release : Block → Outcome Bool
release b = fault log_fatal

unfoldable pub reset : ℕ → Block → Outcome Bool
reset total_size b = check (ltb 0 total_size) >> fault log_fatal

unfoldable pub clear : Block → Memory → Memory
clear b m = memset b.data_ptr 0 b.buffer_size m

unfoldable pub fill_in : Block → ℕ → ℕ → Memory → Outcome Memory
unfolding clear
fill_in b source data_length m = do
  check (leb data_length b.buffer_size)
  ok (memcpy b.data_ptr source data_length (clear b m))

unfoldable pub at : Buffer → ℕ → Outcome Block
at b index = do check (ltb index b.blocks); or_undefined (get_elem? b.buffer_mgr index)

-- `x % blocks_`, where a zero divisor is undefined.
unfoldable pub mod_blocks : ℕ → ℕ → Outcome ℕ
mod_blocks x n = if n == 0 then fault undefined else ok (x % n)

unfoldable pub mark : Bool → ℕ → Buffer → Outcome Buffer
mark used i b = do
  s ← or_undefined (get_elem? b.buffer_mgr i)
  ok (record b { buffer_mgr = set b.buffer_mgr i (record s { in_used = used }) })

-- The sub-buffer that is returned is named by its index in `buffer_mgr_`.
unfoldable pub next : Buffer → Outcome (ℕ × Buffer)
next b = do
  n ← incr_int b.next_active
  i ← mod_blocks (to_size n) b.blocks
  b' ← mark true i (record b { head = record (b.head) { next_active = n } })
  ok (i, b')

unfoldable pub last : Buffer → Outcome (ℕ × Buffer)
last b = do
  n ← incr_int b.last_active
  i ← mod_blocks (to_size n) b.blocks
  b' ← mark false i (record b { head = record (b.head) { last_active = n } })
  ok (i, b')
