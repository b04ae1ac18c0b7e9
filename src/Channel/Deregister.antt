-- ===== src/Channel/Deregister.antt =====
-- Taking a buffer out of its channel, and the destructor of a channel.
use mathlib.Core.Path.{subst}
use rdma_comm_core.Prelude.{
  ℕ, ◌≡◌, ◌≢◌, refl, sym, ap, ◌∙◌, String, Bool, false, not, none, some, List, [], ◌∷◌, ◌==◌, arith,
  inl, inr, ok, ok-injective, check, or_undefined, or_undefined_eq, bind_ensures, length, same_self,
  same_ne, same-cases, find, erase, find-erase,
}
use rdma_comm_core.Verbs.{Verbs}
use rdma_comm_core.Buffer.{Buffer}
use rdma_comm_core.Device.{World}
use rdma_comm_core.Adapter.{Adapter}
use rdma_comm_core.Channel.{
  Host, store, deregister_mem, remove_buffer, deregister_from_channel, behind, destroy_from,
  destroy_channel,
}
use rdma_comm_core.Channel.Registry.{IsOwned, IsRegistry, store_here, store_there}

-- The base loses its owner and its region, the entry of its name goes, and nothing else of the buffers
-- changes: the sub-buffers keep the owner and the region they had.
pub record Deregistered (p : ℕ) (b : Buffer) (h h' : Host) : Type 0 where
  pub was : h.buffers p ≡ some b
  pub now :
      h'.buffers p ≡ some (record b { head = record (b.head) { owned_by_channel = 0; mr = 0 } })
  pub base : b.is_sub_buffer ≡ false
  pub registered : b.mr ≢ 0
  pub table : h'.channel.owning_buffers ≡ erase b.buffer_name h.channel.owning_buffers
  pub elsewhere : (q : ℕ) → p ≢ q → h'.buffers q ≡ h.buffers q
  pub adapter : h'.channel.adapter ≡ h.channel.adapter

module _ (v : Verbs) where
  deregistered :
      (p : ℕ) (b : Buffer) (h : Host) (w : World)
      → h.buffers p ≡ some b
      → b.mr ≢ 0
      → b.is_sub_buffer ≡ false
      → Deregistered p b h (record {
        channel = record (h.channel) {
          owning_buffers = erase b.buffer_name h.channel.owning_buffers;
        };
        buffers =
            store p
              (some (record b { head = record (b.head) { owned_by_channel = 0; mr = 0 } }))
              h.buffers;
        world = w;
      })
  deregistered p b h w was ne base = record {
    was = was;
    now = store_here p _ h.buffers;
    base = base;
    registered = ne;
    table = refl;
    elsewhere = λ q n. store_there p q _ h.buffers n;
    adapter = refl;
  }

  remove_buffer_lem :
      (p : ℕ) (b : Buffer) (h : Host) (x : Bool × Host)
      → h.buffers p ≡ some b
      → remove_buffer p h ≡ ok x
      → (
        false,
        record h {
          channel = record (h.channel) {
            owning_buffers = erase b.buffer_name h.channel.owning_buffers;
          };
        },
      )
        ≡ x
  unfolding remove_buffer
  remove_buffer_lem p b h x was e =
      bind_ensures Q (check (not (p == 0))) _
        (λ _ _. bind_ensures Q (or_undefined (h.buffers p)) _ (λ (c : Buffer) e1 y e2.
          let eq : c ≡ b = (let is : h.buffers p ≡ some c = or_undefined_eq e1 in cc) in
          subst
            (λ c.
              (
                false,
                record h {
                  channel = record (h.channel) {
                    owning_buffers = erase c.buffer_name h.channel.owning_buffers;
                  };
                },
              )
              ≡ y)
            eq (ok-injective e2)))
        x e
    where
      Q : Bool × Host → Type 0
      Q x =
          (
            false,
            record h {
              channel = record (h.channel) {
                owning_buffers = erase b.buffer_name h.channel.owning_buffers;
              };
            },
          )
          ≡ x

  -- A buffer that deregisters returns false, and has done what `Deregistered` says.
  pub deregister_from_channel-Deregistered :
      (p : ℕ) (h h' : Host) (r : Bool)
      → deregister_from_channel v p h ≡ ok (r, h')
      → (r ≡ false) × (b : Buffer) × Deregistered p b h h'
  unfolding deregister_from_channel
  deregister_from_channel-Deregistered p h h' r e =
      bind_ensures Q (or_undefined (h.buffers p)) _
        (λ (b : Buffer) e1. bind_ensures Q (check (not b.is_sub_buffer)) _ (λ _ e2.
          bind_ensures Q (check (not (b.mr == 0))) _ (λ _ e3.
            bind_ensures Q (deregister_mem v h.channel.adapter b.mr h.world) _ (λ (w : World) e4.
              bind_ensures Q (remove_buffer p (record h { world = w })) _
                (λ (x : Bool × Host) e5 y e6.
                  let was : h.buffers p ≡ some b = or_undefined_eq e1 in
                  let x-eq = remove_buffer_lem p b (record h { world = w }) x was e5 in
                  subst Q
                    (ap
                        (λ (x : Bool × Host). (
                          false,
                          record (x.1) {
                            buffers =
                                store p
                                  (some (record b {
                                    head = record (b.head) { owned_by_channel = 0; mr = 0 };
                                  }))
                                  x.1.buffers;
                          },
                        ))
                        x-eq
                      ∙ ok-injective e6)
                    (refl, b, deregistered p b h w was (ground arith) (ground arith)))))))
        (r, h') e
    where
      Q : Bool × Host → Type 0
      Q x = (x.0 ≡ false) × (b : Buffer) × Deregistered p b h x.1

  -- The table and the buffers stay in step.
  pub deregister_from_channel-IsRegistry :
      (p : ℕ) (h h' : Host) (r : Bool)
      → IsRegistry h
      → deregister_from_channel v p h ≡ ok (r, h')
      → IsRegistry h'
  deregister_from_channel-IsRegistry p h h' r good e key q f =
      let (_, b, d) = deregister_from_channel-Deregistered p h h' r e in
      let f' : find key (erase b.buffer_name h.channel.owning_buffers) ≡ some q =
        rw (← d.table) f in
      elim (same-cases b.buffer_name key) [
        | inl eq ↦ absurd (gone b.buffer_name key q h.channel.owning_buffers eq f')
        | inr ne ↦
            let (c, c-eq, o) =
              good key q (kept b.buffer_name key q h.channel.owning_buffers ne f') in
            (
              c,
              d.elsewhere q (λ p-eq. ne (
                    let was : h.buffers q ≡ some b = ap h.buffers (sym p-eq) ∙ d.was in
                    let same : b ≡ c = cc in ap (λ (x : Buffer). x.buffer_name) same ∙ o.named))
                  ∙ c-eq,
              subst (λ (a : Adapter). IsOwned a.this key c) (sym d.adapter) o,
            )
      ]
    where
      gone :
          (k key : String) (q : ℕ) (m : List (String × ℕ))
          → k ≡ key
          → find key (erase k m) ≡ some q
          → ⊥
      gone k key q m eq f = ground (arith, find-erase k key m, same_self key)

      kept :
          (k key : String) (q : ℕ) (m : List (String × ℕ))
          → k ≢ key
          → find key (erase k m) ≡ some q
          → find key m ≡ some q
      kept k key q m ne f = ground (arith, find-erase k key m, same_ne k key ne)

behind-erase : (key : String) (m : List (String × ℕ)) → behind key (erase key m) ≡ none
unfolding behind erase
behind-erase key [] = refl
behind-erase key ((k, p) ∷ m) = ground (arith, behind-erase key m)

find_first : (key : String) (p : ℕ) (m : List (String × ℕ)) → find key ((key, p) ∷ m) ≡ some p
unfolding find
find_first key p m = rw (same_self key) refl

-- The destructor of a channel whose table and buffers are in step returns only where the channel owns no
-- buffer: with one, it steps on from an entry that it has erased.
pub destroy_channel_empty :
    (v : Verbs) (h h' : Host)
    → IsRegistry h
    → destroy_channel v h ≡ ok h'
    → (h.channel.owning_buffers ≡ []) × (h' ≡ h)
unfolding destroy_channel destroy_from
destroy_channel_empty v h h' good e = go h.channel.owning_buffers refl e
  where
    go :
        (m : List (String × ℕ))
        → h.channel.owning_buffers ≡ m
        → destroy_from v (length m) m h ≡ ok h'
        → (h.channel.owning_buffers ≡ []) × (h' ≡ h)
    go [] eq e = (eq, sym (ok-injective e))
    go ((key, p) ∷ m) eq e = absurd (
        bind_ensures (λ _. ⊥) (deregister_from_channel v p h) _
          (λ (r : Bool × Host) e1.
            bind_ensures (λ _. ⊥) (or_undefined (behind key r.1.channel.owning_buffers)) _
              (λ (next : List (String × ℕ)) e2 _ _.
                let (_, b, d) = deregister_from_channel-Deregistered v p h r.1 r.0 e1 in
                let (c, c-eq, o) = good key p (ap (find key) eq ∙ find_first key p m) in
                let same : b ≡ c = (let was : h.buffers p ≡ some b = d.was in cc) in
                let name : b.buffer_name ≡ key =
                  ap (λ (x : Buffer). x.buffer_name) same ∙ o.named in
                let at : behind key r.1.channel.owning_buffers ≡ some next = or_undefined_eq e2 in
                let none-at : behind key r.1.channel.owning_buffers ≡ none =
                  ap (behind key) d.table
                  ∙ ap (λ k. behind key (erase k h.channel.owning_buffers)) name
                  ∙ behind-erase key h.channel.owning_buffers in
                cc))
          h' e)
