-- ===== src/Buffer/Layout.antt =====
-- What the constructor of RDMABuffer builds: blocks that tile the memory, all of them free.
use native.Mathlib.Decide.{dec_lt}
use mathlib.Core.Path.{subst}
use rdma_comm_core.Prelude.{
  ℕ, zero, suc, ◌+◌, ◌*◌, ◌^◌, ◌≤◌, ◌<◌, ◌≡◌, refl, ap, ◌∙◌, String, true, false, Option, none,
  some, check, fault, log_fatal, ok-injective, bind_ensures, [], ◌∷◌, ◌++◌, ltb, length,
  length-append, get_elem?, get_elem?-append_left, get_elem?-append_end, arith, ok,
}
use rdma_comm_core.Prelude.Int.{pos, negsuc, to_size, size_mod}
use rdma_comm_core.Memory.{Memory, memset}
use rdma_comm_core.Buffer.Window.{contains, window}
use rdma_comm_core.Buffer.Ring.{IsRing, used}
use rdma_comm_core.Buffer.{
  Block, Buffer, mul_size, as_index, get_block_size, sub_buffer, split, fresh, allocate_buffer,
}

-- The sub-buffer of index `i` in a buffer at `p` that is cut into blocks of `bytes`.
pub record IsCut (name : ℕ → String) (p bytes i owner region : ℕ) (s : Block) : Type 0 where
  pub named : s.buffer_name ≡ name i
  pub placed : s.data_ptr ≡ p + i * bytes
  pub sized : s.buffer_size ≡ bytes
  pub indexed : s.buffer_index ≡ pos i
  pub owned : s.owned_by_channel ≡ owner
  pub registered : s.mr ≡ region
  pub free : s.in_used ≡ false
  pub ready : s.is_initialized ≡ true
  pub sub : s.is_sub_buffer ≡ true

abbrev pub IsTiled : (ℕ → String) → ℕ → ℕ → Buffer → Type 0
IsTiled name p bytes b =
    (i : ℕ)
    → i < length b.buffer_mgr
    → (s : Block) × (get_elem? b.buffer_mgr i ≡ some s)
      × IsCut name p bytes i b.owned_by_channel b.mr s

as_index_lem :
    (b : Buffer)
    → length b.buffer_mgr < 2 ^ 31
    → as_index (get_block_size b) ≡ pos (length b.buffer_mgr)
unfolding get_block_size
as_index_lem b h = ground arith

module _ (name : ℕ → String) (bytes : ℕ) (wide : bytes < size_mod) where
  sub_buffer-IsCut :
      (b : Buffer) (n : ℕ)
      → length b.buffer_mgr ≡ n
      → n < 2 ^ 31
      → b.data_ptr + n * bytes < size_mod
      → IsCut name b.data_ptr bytes n b.owned_by_channel b.mr (sub_buffer bytes (name n) b)
  unfolding sub_buffer to_size
  sub_buffer-IsCut b n e h g =
      rw (as_index_lem b (omega arith), e)
        (record {
          named = refl;
          placed = omega arith;
          sized = omega arith;
          indexed = refl;
          owned = refl;
          registered = refl;
          free = refl;
          ready = refl;
          sub = refl;
        })

  push-IsTiled :
      (b : Buffer) (s : Block) (n : ℕ)
      → length b.buffer_mgr ≡ n
      → IsCut name b.data_ptr bytes n b.owned_by_channel b.mr s
      → IsTiled name b.data_ptr bytes b
      → IsTiled name b.data_ptr bytes (record b { buffer_mgr = b.buffer_mgr ++ s ∷ [] })
  push-IsTiled b s n e c t i h = elim (dec_lt i n) [
    | yes lt ↦
        let (s', g, c') = t i (omega arith) in
        (s', get_elem?-append_left b.buffer_mgr (s ∷ []) i (omega arith) ∙ g, c')
    | no ge ↦
        let i-eq : n ≡ i = omega (arith, length-append b.buffer_mgr (s ∷ [])) in
        (
          s,
          get_elem?-append_end b.buffer_mgr s i (omega arith),
          subst (λ k. IsCut name b.data_ptr bytes k b.owned_by_channel b.mr s) i-eq c,
        )
  ]

  split-IsTiled :
      (left n : ℕ) (b : Buffer)
      → length b.buffer_mgr ≡ n
      → n + left < 2 ^ 31
      → b.data_ptr + (n + left) * bytes ≤ size_mod
      → 0 < bytes
      → IsTiled name b.data_ptr bytes b
      → IsTiled name b.data_ptr bytes (split name bytes n left b)
        × (length (split name bytes n left b).buffer_mgr ≡ n + left)
        × ((split name bytes n left b).head ≡ b.head)
  unfolding split
  split-IsTiled zero n b e h g some_bytes t = (t, omega arith, refl)
  split-IsTiled (suc left) n b e h g some_bytes t =
      let (t', l, hd) =
        split-IsTiled left (n + 1) b' (omega (arith, length-append b.buffer_mgr (s ∷ [])))
          (omega arith) (grind arith) some_bytes
          (push-IsTiled b s n e (sub_buffer-IsCut b n e (omega arith) (grind arith)) t) in
      (t', omega arith, hd)
    where
      s : Block
      s = sub_buffer bytes (name n) b

      b' : Buffer
      b' = record b { buffer_mgr = b.buffer_mgr ++ s ∷ [] }

-- What allocate_buffer returns, and the memory after it.
pub record IsAllocated (name : ℕ → String) (p bytes count : ℕ) (info : String) (b : Buffer)
    : Type 0 where
  pub tiled : IsTiled name p bytes b
  pub length_eq : length b.buffer_mgr ≡ count
  pub blocks_eq : b.blocks ≡ count
  pub size_eq : b.buffer_size ≡ bytes * count
  pub ptr_eq : b.data_ptr ≡ p
  pub info_eq : b.buffer_name ≡ info
  pub unowned : (b.owned_by_channel ≡ 0) × (b.mr ≡ 0)
  pub counters : (b.next_active ≡ negsuc 0) × (b.last_active ≡ negsuc 0)
  pub base : b.is_sub_buffer ≡ false

module _ (name : ℕ → String) (p bytes count : ℕ) (info : String) (m : Memory) where
  -- On memory of bytes * count bytes at `p`, which lies below 2^64, with fewer than 2^31 blocks,
  -- allocate_buffer returns a buffer of that size whose sub-buffers are the `count` blocks of `bytes`
  -- bytes that follow one another from `p`, free and not registered; it zeroes the first `bytes` bytes.
  pub allocate_buffer-IsAllocated :
      0 < p
      → 0 < bytes
      → 0 < count
      → count < 2 ^ 31
      → p + count * bytes ≤ size_mod
      → (b : Buffer) × (allocate_buffer name (some p) bytes count info m
          ≡ ok (b, memset p 0 bytes m))
        × IsAllocated name p bytes count info b
  unfolding allocate_buffer
  allocate_buffer-IsAllocated hp hb hc hn fits = (
    b,
    rw positive refl,
    record {
      tiled = cut.0;
      length_eq = cut.1;
      blocks_eq = ap (λ (h : Block). h.blocks) cut.2;
      size_eq = ap (λ (h : Block). h.buffer_size) cut.2 ∙ size;
      ptr_eq = ap (λ (h : Block). h.data_ptr) cut.2;
      info_eq = ap (λ (h : Block). h.buffer_name) cut.2;
      unowned = (ap (λ (h : Block). h.owned_by_channel) cut.2, ap (λ (h : Block). h.mr) cut.2);
      counters = (ap (λ (h : Block). h.next_active) cut.2, ap (λ (h : Block). h.last_active) cut.2);
      base = ap (λ (h : Block). h.is_sub_buffer) cut.2;
    },
  )
    where
      start : Buffer
      start = record {
        head = record (fresh info (mul_size bytes count) count false) { data_ptr = p };
        buffer_mgr = [];
      }

      whole : Buffer
      whole = split name bytes 0 count start

      b : Buffer
      b = record whole { head = record (whole.head) { is_initialized = true } }

      product : (0 < bytes * count) × (bytes * count < size_mod) × (bytes < size_mod)
      product = (grind arith, grind arith, grind arith)

      size : mul_size bytes count ≡ bytes * count
      size = let q = product.1 in omega arith

      positive : ltb 0 (mul_size bytes count) ≡ true
      positive = rw size (let q = product.0 in ground arith)

      cut :
          IsTiled name p bytes whole × (length whole.buffer_mgr ≡ count) × (whole.head ≡ start.head)
      cut =
          let (t, l, h) =
            split-IsTiled name bytes product.2 count 0 start refl (omega arith) (omega arith) hb
              (λ i h. elim h [ ]) in
          (t, omega arith, h)

module _ {name : ℕ → String} {p bytes count : ℕ} {info : String} {b : Buffer}
    (a : IsAllocated name p bytes count info b) where
  -- An allocated buffer starts as a ring with no block in use.
  pub IsAllocated-IsRing : 0 < count → IsRing count b 0 0
  unfolding contains window
  IsAllocated-IsRing hc = record {
    count = a.blocks_eq;
    sized = a.length_eq;
    some_blocks = hc;
    room = omega arith;
    handed = a.counters.0;
    taken = a.counters.1;
    flags =
        λ i h. let (s, e, c) = a.tiled i (let l = a.length_eq in omega arith) in ap used e ∙ c.free;
  }

split-head :
    (name : ℕ → String) (bytes n left : ℕ) (b : Buffer) → (split name bytes n left b).head ≡ b.head
unfolding split
split-head name bytes n zero b = refl
split-head name bytes n (suc left) b =
    split-head name bytes (n + 1) left
      (record b { buffer_mgr = b.buffer_mgr ++ sub_buffer bytes (name n) b ∷ [] })

-- A new buffer has the name that it is allocated with.
pub allocate_buffer_name :
    (sub : ℕ → String) (given : Option ℕ) (size count : ℕ) (name : String) (m m' : Memory)
    (b : Buffer)
    → allocate_buffer sub given size count name m ≡ ok (b, m')
    → b.buffer_name ≡ name
unfolding allocate_buffer
allocate_buffer_name sub given size count name m m' b e =
    (bind_ensures Q (check (ltb 0 (mul_size size count))) _ λ _ _.
        bind_ensures Q (elim given [ none ↦ fault log_fatal | some p ↦ ok p ]) _
          λ (p : ℕ) _ (out : Buffer × Memory) f. subst Q (ok-injective f) (
            ap (λ (x : Block). x.buffer_name)
              (split-head sub size 0 count (record {
                head = record (fresh name (mul_size size count) count false) { data_ptr = p };
                buffer_mgr = [];
              }))))
      (b, m') e
  where
    Q : Buffer × Memory → Type 0
    Q r = r.0.buffer_name ≡ name
