-- ===== src/Adapter/Transfer/Stock.antt =====
-- Rings whose blocks are registered: taking a block and giving it back keeps all of them fit for a request.
use mathlib.Core.Path.{subst}
use rdma_comm_core.Prelude.{
  ℕ, zero, suc, ◌+◌, ◌%◌, ◌≤◌, ◌<◌, ◌≡◌, refl, ◌∙◌, Bool, true, false, Option, none, some, List, [],
  ◌∷◌, get_elem?, set, get_elem?-lt, All, arith, ok, ok-injective, or_undefined, or_undefined_eq,
  bind_ensures,
}
use rdma_comm_core.Prelude.Int.{ℤ, int_max, incr_int, to_size}
use rdma_comm_core.Buffer.{Block, Buffer, mod_blocks, mark, next, last}
use rdma_comm_core.Buffer.Ring.{IsRing, next-IsRing, last-IsRing}
use rdma_comm_core.Adapter.Transfer.Bounds.{IsPostable}

-- A block of that size that a request may be posted for.
pub record IsFit (size : ℕ) (b : Block) : Type 0 where
  pub postable : IsPostable b
  pub exact : b.buffer_size ≡ size

-- The base and all blocks of a buffer are registered.
abbrev pub AllFit : ℕ → Buffer → Type 0
AllFit size b = (0 < b.mr) × All (IsFit size) b.buffer_mgr

module _ {ℓ κ} {A : Type ℓ} (P : A → Type κ) where
  All-get_elem? : (xs : List A) (i : ℕ) {a : A} → All P xs → get_elem? xs i ≡ some a → P a
  All-get_elem? [] i h e = cc
  All-get_elem? (x ∷ xs) zero h e = subst P (cc) h.0
  All-get_elem? (x ∷ xs) (suc i) h e = All-get_elem? xs i h.1 e

  All-set : (xs : List A) (i : ℕ) (a : A) → All P xs → P a → All P (set xs i a)
  All-set [] i a h p = tt
  All-set (x ∷ xs) zero a h p = (p, h.1)
  All-set (x ∷ xs) (suc i) a h p = (h.0, All-set xs i a h.1 p)

IsFit-mark :
    {size : ℕ} (u : Bool) (b : Block) → IsFit size b → IsFit size (record b { in_used = u })
IsFit-mark u b f = record {
  postable = record {
    filled = f.postable.filled;
    placed = f.postable.placed;
    owned = f.postable.owned;
    registered = f.postable.registered;
  };
  exact = f.exact;
}

module _ (size : ℕ) where
  mark-AllFit :
      (u : Bool) (i : ℕ) (b : Buffer)
      → AllFit size b
      → (b' : Buffer) → mark u i b ≡ ok b'
      → AllFit size b'
  unfolding mark
  mark-AllFit u i b h b' e =
      bind_ensures (AllFit size) (or_undefined (get_elem? b.buffer_mgr i)) _
        (λ s e₁ c e₂. subst (AllFit size) (ok-injective e₂) (
          h.0,
          All-set (IsFit size) b.buffer_mgr i (record s { in_used = u }) h.1
              (IsFit-mark u s (All-get_elem? (IsFit size) b.buffer_mgr i h.1 (or_undefined_eq e₁))),
        ))
        b' e

-- What survives a change of the counters and of a mark survives `next` and `last`.
module _ {κ} (Q : Buffer → Type κ)
    (handed : (b : Buffer) (n : ℤ)
      → Q b
      → Q (record b { head = record (b.head) { next_active = n } }))
    (taken : (b : Buffer) (n : ℤ)
      → Q b
      → Q (record b { head = record (b.head) { last_active = n } }))
    (marked : (u : Bool) (i : ℕ) (b : Buffer)
      → Q b
      → (b' : Buffer) → mark u i b ≡ ok b'
      → Q b') where
  abbrev Result : ℕ × Buffer → Type κ
  Result r = Q r.1

  next_keeps : (b : Buffer) (i : ℕ) (b' : Buffer) → Q b → next b ≡ ok (i, b') → Q b'
  unfolding next
  next_keeps b i b' h e =
      bind_ensures Result (incr_int b.next_active) _
        (λ n e₁ r₁ f₁.
          bind_ensures Result (mod_blocks (to_size n) b.blocks) _
            (λ j e₂ r₂ f₂.
              let b₁ : Buffer = record b { head = record (b.head) { next_active = n } } in
              bind_ensures Result (mark true j b₁) _
                (λ c e₃ r₃ f₃.
                  subst Result (ok-injective f₃) (marked true j b₁ (handed b n h) c e₃))
                r₂ f₂)
            r₁ f₁)
        (i, b') e

  last_keeps : (b : Buffer) (i : ℕ) (b' : Buffer) → Q b → last b ≡ ok (i, b') → Q b'
  unfolding last
  last_keeps b i b' h e =
      bind_ensures Result (incr_int b.last_active) _
        (λ n e₁ r₁ f₁.
          bind_ensures Result (mod_blocks (to_size n) b.blocks) _
            (λ j e₂ r₂ f₂.
              let b₁ : Buffer = record b { head = record (b.head) { last_active = n } } in
              bind_ensures Result (mark false j b₁) _
                (λ c e₃ r₃ f₃.
                  subst Result (ok-injective f₃) (marked false j b₁ (taken b n h) c e₃))
                r₂ f₂)
            r₁ f₁)
        (i, b') e

module _ (size : ℕ) where
  next-AllFit :
      (b : Buffer) (i : ℕ) (b' : Buffer) → AllFit size b → next b ≡ ok (i, b') → AllFit size b'
  next-AllFit = next_keeps (AllFit size) (λ b n h. h) (λ b n h. h) (mark-AllFit size)

  last-AllFit :
      (b : Buffer) (i : ℕ) (b' : Buffer) → AllFit size b → last b ≡ ok (i, b') → AllFit size b'
  last-AllFit = last_keeps (AllFit size) (λ b n h. h) (λ b n h. h) (mark-AllFit size)

-- Where the block at an index lies.
abbrev pub place : List Block → ℕ → Option ℕ
place bs i = elim (get_elem? bs i) [ none ↦ none | some b ↦ some b.data_ptr ]

place-set :
    (bs : List Block) (i j : ℕ) (b : Block) (u : Bool)
    → get_elem? bs i ≡ some b
    → place (set bs i (record b { in_used = u })) j ≡ place bs j
place-set [] i j b u e = refl
place-set (x ∷ bs) zero zero b u e = ground arith
place-set (x ∷ bs) zero (suc j) b u e = refl
place-set (x ∷ bs) (suc i) zero b u e = refl
place-set (x ∷ bs) (suc i) (suc j) b u e = place-set bs i j b u e

-- No block moves.
abbrev SamePlaces : Buffer → Buffer → Type 0
SamePlaces b b' = (j : ℕ) → place b'.buffer_mgr j ≡ place b.buffer_mgr j

mark-SamePlaces :
    (b₀ : Buffer) (u : Bool) (i : ℕ) (b : Buffer)
    → SamePlaces b₀ b
    → (b' : Buffer) → mark u i b ≡ ok b'
    → SamePlaces b₀ b'
unfolding mark
mark-SamePlaces b₀ u i b h b' e =
    bind_ensures (SamePlaces b₀) (or_undefined (get_elem? b.buffer_mgr i)) _
      (λ s e₁ c e₂.
        subst (SamePlaces b₀) (ok-injective e₂)
          (λ j. place-set b.buffer_mgr i j s u (or_undefined_eq e₁) ∙ h j))
      b' e

pub next-place :
    (b : Buffer) (i : ℕ) (b' : Buffer)
    → next b ≡ ok (i, b')
    → (j : ℕ) → place b'.buffer_mgr j ≡ place b.buffer_mgr j
next-place b i b' e =
    next_keeps (SamePlaces b) (λ c n h. h) (λ c n h. h) (mark-SamePlaces b) b i b' (λ j. refl) e

pub last-place :
    (b : Buffer) (i : ℕ) (b' : Buffer)
    → last b ≡ ok (i, b')
    → (j : ℕ) → place b'.buffer_mgr j ≡ place b.buffer_mgr j
last-place b i b' e =
    last_keeps (SamePlaces b) (λ c n h. h) (λ c n h. h) (mark-SamePlaces b) b i b' (λ j. refl) e

-- A ring whose blocks are all fit, `l` of them taken back and `k` in use.
pub record IsStock (size n : ℕ) (b : Buffer) (l k : ℕ) : Type 0 where
  pub ring : IsRing n b l k
  pub fit : AllFit size b

module _ (size n : ℕ) (b : Buffer) (l k : ℕ) where
  -- With a block to spare `next` gives one that is fit for a request.
  pub next-IsStock :
      IsStock size n b l k
      → k < n
      → l + k ≤ int_max
      → (x : Block) × (b' : Buffer) × (next b ≡ ok ((l + k) % n, b'))
        × (get_elem? b'.buffer_mgr ((l + k) % n) ≡ some x)
        × IsFit size x
        × IsStock size n b' l (suc k)
  next-IsStock h lt room =
      let (b', e, r, _) = next-IsRing n b l k h.ring lt room in
      let fit = next-AllFit size b ((l + k) % n) b' h.fit e in
      let p = h.ring.some_blocks in
      let sized = r.sized in
      let (x, g) = get_elem?-lt b'.buffer_mgr ((l + k) % n) (omega arith) in
      (
        x,
        b',
        e,
        g,
        All-get_elem? (IsFit size) b'.buffer_mgr ((l + k) % n) fit.1 g,
        record { ring = r; fit = fit },
      )

  pub last-IsStock :
      IsStock size n b l (suc k)
      → l ≤ int_max
      → (b' : Buffer) × (last b ≡ ok (l % n, b')) × IsStock size n b' (suc l) k
  last-IsStock h room =
      let (b', e, r, _) = last-IsRing n b l k h.ring room in
      (b', e, record { ring = r; fit = last-AllFit size b (l % n) b' h.fit e })
