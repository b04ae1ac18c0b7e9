-- ===== src/Channel/Register.antt =====
-- Registering a buffer in a channel.
use mathlib.Core.Path.{subst}
use rdma_comm_core.Prelude.{
  ℕ, ◌≡◌, ◌≢◌, ◌<◌, refl, sym, ap, ◌∙◌, String, true, false, not, none, some, List, [], ◌∷◌, ◌==◌,
  arith, inl, inr, ok, ok-injective, check, or_undefined, or_undefined_eq, >>=-eq-ok, bind_ensures,
  Option-cases, same_self, same-cases, same_ne, find, insert, find-insert, get_elem?, zero, suc,
}
use rdma_comm_core.Verbs.{Verbs}
use rdma_comm_core.Buffer.{Block, Buffer}
use rdma_comm_core.Device.{World}
use rdma_comm_core.Device.MemoryRegion.{real_register_mem}
use rdma_comm_core.Adapter.{Adapter}
use rdma_comm_core.Channel.{Host, store, share, register_mem, register_in_channel, register_buffer}
use rdma_comm_core.Channel.Registry.{IsOwned, IsRegistry, store_here, store_there}

-- A sub-buffer of a registered buffer, at the place of the one it was.
pub share-get_elem? :
    (owner mr i : ℕ) (ss : List Block) (s : Block)
    → get_elem? ss i ≡ some s
    → get_elem? (share owner mr ss) i ≡ some (record s { owned_by_channel = owner; mr = mr })
unfolding share
share-get_elem? owner mr i [] s e = ground arith
share-get_elem? owner mr zero (x ∷ ss) s e = ground arith
share-get_elem? owner mr (suc i) (x ∷ ss) s e = share-get_elem? owner mr i ss s e

register_mem_lem :
    (v : Verbs) (a : Adapter) (data_ptr size flags : ℕ) (w w' : World) (mr : ℕ)
    → register_mem v a data_ptr size flags w ≡ ok (mr, w')
    → (mr ≢ 0) × (0 < size) × (0 < data_ptr)
unfolding register_mem real_register_mem
register_mem_lem v a data_ptr size flags w w' mr e = ground arith

-- What a call of register_buffer that returns has done to the buffer `b` at `p`: the table holds it under
-- its name, which was free; `b'`, which stands there now, is owned and registered, and so is every
-- sub-buffer of it, with the same key and else as it was. No other buffer and no other entry changes.
pub record Registered (p : ℕ) (b b' : Buffer) (h h' : Host) : Type 0 where
  pub was : h.buffers p ≡ some b
  pub now : h'.buffers p ≡ some b'
  pub free : find b.buffer_name h.channel.owning_buffers ≡ none
  pub entered : find b.buffer_name h'.channel.owning_buffers ≡ some p
  pub others :
      (key : String)
      → b.buffer_name ≢ key
      → find key h'.channel.owning_buffers ≡ find key h.channel.owning_buffers
  pub owned : IsOwned h.channel.this b.buffer_name b'
  pub blocks :
      (i : ℕ) (s : Block)
      → get_elem? b.buffer_mgr i ≡ some s
      → get_elem? b'.buffer_mgr i
        ≡ some (record s { owned_by_channel = h.channel.this; mr = b'.mr })
  pub elsewhere : (q : ℕ) → p ≢ q → h'.buffers q ≡ h.buffers q
  pub adapter : h'.channel.adapter ≡ h.channel.adapter
  pub shape :
      (mr : ℕ) × (mr ≢ 0)
      × (b' ≡ record b {
        head = record (b.head) { owned_by_channel = h.channel.this; mr = mr };
        buffer_mgr = share h.channel.this mr b.buffer_mgr;
      })

module _ (v : Verbs) where
  register_in_channel_lem :
      (a : Adapter) (b b' : Buffer) (w w' : World)
      → register_in_channel v a b w ≡ ok (b', w')
      → (mr : ℕ) × (mr ≢ 0)
        × (b.is_sub_buffer ≡ false)
        × (b' ≡ record b {
          head = record (b.head) { owned_by_channel = a.this; mr = mr };
          buffer_mgr = share a.this mr b.buffer_mgr;
        })
  unfolding register_in_channel
  register_in_channel_lem a b b' w w' e =
      let (_, e0, e') = >>=-eq-ok (check (not b.is_sub_buffer)) _ e in
      let (r, e1, e2) = >>=-eq-ok (register_mem v a b.data_ptr b.buffer_size 0 w) _ e' in
      let s : b.is_sub_buffer ≡ false = ground arith in
      (
        r.0,
        (register_mem_lem v a b.data_ptr b.buffer_size 0 w r.1 r.0 e1).0,
        s,
        sym (ap (λ (x : Buffer × World). x.0) (ok-injective e2)),
      )

  registered :
      (p mr : ℕ) (b b' : Buffer) (h : Host) (w : World)
      → h.buffers p ≡ some b
      → find b.buffer_name h.channel.owning_buffers ≡ none
      → mr ≢ 0
      → b.is_sub_buffer ≡ false
      → b' ≡ record b {
        head = record (b.head) { owned_by_channel = h.channel.this; mr = mr };
        buffer_mgr = share h.channel.this mr b.buffer_mgr;
      }
      → Registered p b b' h (record {
        channel = record (h.channel) {
          owning_buffers = insert b.buffer_name p h.channel.owning_buffers;
        };
        buffers = store p (some b') h.buffers;
        world = w;
      })
  registered p mr b b' h w was free ne base eq = record {
    was = was;
    now = store_here p (some b') h.buffers;
    free = free;
    entered =
        find-insert b.buffer_name b.buffer_name p h.channel.owning_buffers free
        ∙ rw (same_self b.buffer_name) refl;
    others = λ key n.
        find-insert b.buffer_name key p h.channel.owning_buffers free
        ∙ rw (same_ne b.buffer_name key n) refl;
    owned = rw eq (record { named = refl; owned = refl; registered = ne; base = base });
    blocks = λ i s g. rw eq (share-get_elem? h.channel.this mr i b.buffer_mgr s g);
    elsewhere = λ q n. store_there p q (some b') h.buffers n;
    adapter = refl;
    shape = (mr, ne, eq);
  }

  free_name :
      (key : String) (m : List (String × ℕ)) (u : Unit {0})
      → check (elim (find key m) [ none ↦ true | some q ↦ false ]) ≡ ok u
      → find key m ≡ none
  free_name key m u e = elim (Option-cases (find key m)) [
    | inl n ↦ n
    | inr (q, n) ↦ absurd (ground arith)
  ]

  -- A registration that returns has registered the buffer, as `Registered` says.
  pub register_buffer-Registered :
      (p : ℕ) (h h' : Host)
      → register_buffer v p h ≡ ok h'
      → (b : Buffer) × (b' : Buffer) × Registered p b b' h h'
  unfolding register_buffer
  register_buffer-Registered p h h' e =
      bind_ensures Q (check (not (p == 0))) _
        (λ _ _. bind_ensures Q (or_undefined (h.buffers p)) _ (λ (b : Buffer) e1.
          bind_ensures Q
            (check
              (elim (find b.buffer_name h.channel.owning_buffers) [ none ↦ true | some q ↦ false ]))
            _
            (λ u e3.
              bind_ensures Q (register_in_channel v h.channel.adapter b h.world) _
                (λ (r : Buffer × World) e5 out e6.
                  let (mr, ne, base, eq) =
                    register_in_channel_lem h.channel.adapter b r.0 h.world r.1 e5 in
                  subst Q (ok-injective e6) (
                    b,
                    r.0,
                    registered p mr b r.0 h r.1 (or_undefined_eq e1)
                        (free_name b.buffer_name h.channel.owning_buffers u e3) ne base eq,
                  )))))
        h' e
    where
      Q : Host → Type 0
      Q x = (b : Buffer) × (b' : Buffer) × Registered p b b' h x

-- Registration keeps the table and the buffers in step.
pub register_buffer-IsRegistry :
    (v : Verbs) (p : ℕ) (h h' : Host) → IsRegistry h → register_buffer v p h ≡ ok h' → IsRegistry h'
register_buffer-IsRegistry v p h h' good e key q f =
    let (b, b', r) = register_buffer-Registered v p h h' e in
    elim (same-cases b.buffer_name key) [
      | inl eq ↦
          let there : find key h'.channel.owning_buffers ≡ some p =
            subst (λ k. find k h'.channel.owning_buffers ≡ some p) eq r.entered in
          let q-eq : q ≡ p = cc in
          (
            b',
            ap h'.buffers q-eq ∙ r.now,
            subst (λ k. IsOwned h'.channel.this k b') eq
                (subst (λ (a : Adapter). IsOwned a.this b.buffer_name b') (sym r.adapter) r.owned),
          )
      | inr ne ↦
          let (c, c-eq, o) = good key q (sym (r.others key ne) ∙ f) in
          (
            c,
            r.elsewhere q (λ p-eq. ne (
                  let was : h.buffers q ≡ some b = ap h.buffers (sym p-eq) ∙ r.was in
                  let same : b ≡ c = cc in ap (λ (x : Buffer). x.buffer_name) same ∙ o.named))
                ∙ c-eq,
            subst (λ (a : Adapter). IsOwned a.this key c) (sym r.adapter) o,
          )
    ]
