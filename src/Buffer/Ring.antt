-- ===== src/Buffer/Ring.antt =====
-- `next` and `last` keep a queue: `next` hands out the blocks round and round, and `last` takes them
-- back in the order in which they were handed out.
use native.Mathlib.Nat.{add-mod_right}
use rdma_comm_core.Prelude.{
  ℕ, zero, suc, ◌+◌, ◌%◌, ◌≤◌, ◌<◌, ◌^◌, ◌≡◌, refl, ap, ◌∙◌, Bool, true, false, Option, none, some,
  length, get_elem?, set, length-set, get_elem?-set_self, get_elem?-set_ne, get_elem?-lt, arith, ok,
  fault, undefined,
}
use rdma_comm_core.Prelude.Int.{ℤ, pos, negsuc, incr_int, to_size, int_max}
use rdma_comm_core.Buffer.{Block, Buffer, mod_blocks, mark, next, last}
use rdma_comm_core.Buffer.Window.{
  window, contains, contains-snoc, window-suc, window_fresh, window_around, window_head,
}

-- The value of a counter after `n` increments from -1.
abbrev pub after : ℕ → ℤ
after zero = negsuc 0
after (suc n) = pos n

abbrev pub used : Option Block → Bool
used none = false
used (some s) = s.in_used

abbrev pub is_used : Buffer → ℕ → Bool
is_used b i = used (get_elem? b.buffer_mgr i)

-- Of `n` blocks, `l` have been taken back, and the `k` handed out after them are exactly those in use.
pub record IsRing (n : ℕ) (b : Buffer) (l k : ℕ) : Type 0 where
  pub count : b.blocks ≡ n
  pub sized : length b.buffer_mgr ≡ n
  pub some_blocks : 0 < n
  pub room : k ≤ n
  pub handed : b.next_active ≡ after (l + k)
  pub taken : b.last_active ≡ after l
  pub flags : (i : ℕ) → i < n → is_used b i ≡ contains (window n l k) i

incr_int-after : (n : ℕ) → n ≤ int_max → incr_int (after n) ≡ ok (pos n)
unfolding incr_int
incr_int-after zero h = refl
incr_int-after (suc n) h = ground arith

mod_blocks_lem : (x m n : ℕ) → m ≡ n → 0 < n → mod_blocks x m ≡ ok (x % n)
unfolding mod_blocks
mod_blocks_lem x m n e h = ground arith

record Marked (u : Bool) (i : ℕ) (b b' : Buffer) : Type 0 where
  same_head : b'.head ≡ b.head
  same_length : length b'.buffer_mgr ≡ length b.buffer_mgr
  flag_set : is_used b' i ≡ u
  flags_kept : (j : ℕ) → (i ≡ j → ⊥) → is_used b' j ≡ is_used b j

mark_lem :
    (u : Bool) (i : ℕ) (b : Buffer)
    → i < length b.buffer_mgr
    → (b' : Buffer) × (mark u i b ≡ ok b') × Marked u i b b'
unfolding mark
mark_lem u i b h =
    let (s, e) = get_elem?-lt b.buffer_mgr i h in
    (
      record b { buffer_mgr = set b.buffer_mgr i (record s { in_used = u }) },
      rw e refl,
      record {
        same_head = refl;
        same_length = length-set b.buffer_mgr i _;
        flag_set = ap used (get_elem?-set_self b.buffer_mgr i (record s { in_used = u }) h);
        flags_kept =
            λ j ne. ap used (get_elem?-set_ne b.buffer_mgr i j (record s { in_used = u }) ne);
      },
    )

-- `next` on a ring with a block to spare returns the index after those handed out, which was free; it
-- marks that block alone, and the ring has one more block in use.
pub next-IsRing :
    (n : ℕ) (b : Buffer) (l k : ℕ)
    → IsRing n b l k
    → k < n
    → l + k ≤ int_max
    → (b' : Buffer) × (next b ≡ ok ((l + k) % n, b'))
      × IsRing n b' l (suc k)
      × (is_used b ((l + k) % n) ≡ false)
unfolding next to_size contains
next-IsRing n b l k r h g = (
  b',
  rw
      (
        r.handed,
        incr_int-after (l + k) g,
        mod_blocks_lem (l + k) b.blocks n r.count r.some_blocks,
        marked.1,
      )
      refl,
  record {
    count = ground (arith, m, r);
    sized = ground (arith, m, r);
    some_blocks = ground (arith, m, r);
    room = ground (arith, m, r);
    handed = ground (arith, m, r);
    taken = ground (arith, m, r);
    flags = λ j hj. ground (
      arith,
      m.same_head,
      m.flag_set,
      m.flags_kept j,
      r.flags j,
      window-suc n l k,
      contains-snoc (window n l k) i j,
    );
  },
  r.flags i lt ∙ window_fresh n l k (l + k) (omega arith) (omega arith),
)
  where
    i : ℕ
    i = (l + k) % n

    lt : i < n
    lt = let p = r.some_blocks in omega arith

    counted : Buffer
    counted = record b { head = record (b.head) { next_active = pos (l + k) } }

    marked : (b' : Buffer) × (mark true i counted ≡ ok b') × Marked true i counted b'
    marked = mark_lem true i counted (let s = r.sized in omega arith)

    b' : Buffer
    b' = marked.0

    m : Marked true i counted b'
    m = marked.2

-- `last` on a ring with a block in use returns the block that was handed out first, which was in use;
-- it frees that block alone, and the ring has one block less in use.
pub last-IsRing :
    (n : ℕ) (b : Buffer) (l k : ℕ)
    → IsRing n b l (suc k)
    → l ≤ int_max
    → (b' : Buffer) × (last b ≡ ok (l % n, b')) × IsRing n b' (suc l) k × (is_used b (l % n) ≡ true)
unfolding last to_size contains window
last-IsRing n b l k r g = (
  b',
  rw (r.taken, incr_int-after l g, mod_blocks_lem l b.blocks n r.count r.some_blocks, marked.1)
      refl,
  record {
    count = ground (arith, m, r);
    sized = ground (arith, m, r);
    some_blocks = ground (arith, m, r);
    room = ground (arith, m, r);
    handed = ground (arith, m, r);
    taken = ground (arith, m, r);
    flags = λ j hj. ground (arith, m.same_head, m.flag_set, m.flags_kept j, r.flags j, gone);
  },
  ground (arith, r.flags i lt),
)
  where
    i : ℕ
    i = l % n

    lt : i < n
    lt = let p = r.some_blocks in omega arith

    counted : Buffer
    counted = record b { head = record (b.head) { last_active = pos l } }

    marked : (b' : Buffer) × (mark false i counted ≡ ok b') × Marked false i counted b'
    marked = mark_lem false i counted (let s = r.sized in omega arith)

    b' : Buffer
    b' = marked.0

    m : Marked false i counted b'
    m = marked.2

    gone : contains (window n (suc l) k) (l % n) ≡ false
    gone = window_around n l k r.room

-- `next` does not refuse when every block is in use: it hands out the oldest one again.
pub next_overrun :
    (n : ℕ) (b : Buffer) (l : ℕ)
    → IsRing n b l n
    → l + n ≤ int_max
    → (b' : Buffer) × (next b ≡ ok (l % n, b'))
      × (is_used b (l % n) ≡ true)
      × (is_used b' (l % n) ≡ true)
unfolding next to_size contains
next_overrun n b l r g = (
  marked.0,
  rw
      (
        r.handed,
        incr_int-after (l + n) g,
        mod_blocks_lem (l + n) b.blocks n r.count r.some_blocks,
        add-mod_right l n,
        marked.1,
      )
      refl,
  r.flags i lt ∙ inside,
  marked.2.flag_set,
)
  where
    i : ℕ
    i = l % n

    lt : i < n
    lt = let p = r.some_blocks in omega arith

    counted : Buffer
    counted = record b { head = record (b.head) { next_active = pos (l + n) } }

    marked : (b' : Buffer) × (mark true i counted ≡ ok b') × Marked true i counted b'
    marked = mark_lem true i counted (let s = r.sized in omega arith)

    inside : contains (window n l n) i ≡ true
    inside = window_head n l n r.some_blocks

-- The counter of `next` is an `int`: the call after 2^31 calls overflows it, whatever the buffer holds.
pub next_overflow : (b : Buffer) → b.next_active ≡ after (2 ^ 31) → next b ≡ fault undefined
unfolding next incr_int
next_overflow b h = rw h refl
