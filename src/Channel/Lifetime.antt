-- ===== src/Channel/Lifetime.antt =====
-- A buffer that a channel registers and then lets go.
use mathlib.Core.Path.{subst}
use rdma_comm_core.Prelude.{
  ℕ, ◌≡◌, ◌≢◌, ◌<◌, refl, sym, ap, ◌∙◌, String, Bool, true, none, some, arith, inl, inr, ok, same,
  same_self, same_ne, same-cases, find, erase, find-erase, get_elem?,
}
use rdma_comm_core.Verbs.{Verbs}
use rdma_comm_core.Buffer.{Block, Buffer}
use rdma_comm_core.Adapter.Transfer.Bounds.{IsPostable}
use rdma_comm_core.Channel.{Host, register_buffer, deregister_from_channel}
use rdma_comm_core.Channel.Register.{register_buffer-Registered}
use rdma_comm_core.Channel.Deregister.{deregister_from_channel-Deregistered}

-- Registering a buffer makes every block of it that has memory fit for a request.
pub register_buffer-IsPostable :
    (v : Verbs) (p i : ℕ) (h h' : Host) (b : Buffer) (s : Block)
    → register_buffer v p h ≡ ok h'
    → 0 < h.channel.this
    → h.buffers p ≡ some b
    → get_elem? b.buffer_mgr i ≡ some s
    → 0 < s.buffer_size
    → 0 < s.data_ptr
    → (b' : Buffer) × (s' : Block) × (h'.buffers p ≡ some b')
      × (get_elem? b'.buffer_mgr i ≡ some s')
      × (s'.mr ≡ b'.mr)
      × IsPostable s'
register_buffer-IsPostable v p i h h' b s e this was at filled placed =
    let (c, b', r) = register_buffer-Registered v p h h' e in
    let same : b ≡ c = (let w : h.buffers p ≡ some c = r.was in cc) in
    let at' : get_elem? c.buffer_mgr i ≡ some s =
      subst (λ (x : Buffer). get_elem? x.buffer_mgr i ≡ some s) same at in
    let ne : b'.mr ≢ 0 = r.owned.registered in
    (
      b',
      _,
      r.now,
      r.blocks i s at',
      refl,
      record { filled = filled; placed = placed; owned = this; registered = omega arith },
    )

module _ (v : Verbs) (p : ℕ) (h h' h'' : Host) (r : Bool) where
  -- To register a buffer and to deregister it leaves the table as it was, for every name.
  pub register-deregister :
      register_buffer v p h ≡ ok h'
      → deregister_from_channel v p h' ≡ ok (r, h'')
      → (key : String) → find key h''.channel.owning_buffers ≡ find key h.channel.owning_buffers
  register-deregister e e' key =
      let (b, b', g) = register_buffer-Registered v p h h' e in
      let (_, c, d) = deregister_from_channel-Deregistered v p h' h'' r e' in
      let base : b' ≡ c =
        (let x : h'.buffers p ≡ some b' = g.now in let y : h'.buffers p ≡ some c = d.was in cc) in
      let name : c.buffer_name ≡ b.buffer_name =
        ap (λ (x : Buffer). x.buffer_name) (sym base) ∙ g.owned.named in
      let there : find key h''.channel.owning_buffers
          ≡ find key (erase b.buffer_name h'.channel.owning_buffers) =
        ap (find key) d.table ∙ ap (λ k. find key (erase k h'.channel.owning_buffers)) name in
      there
      ∙ find-erase b.buffer_name key h'.channel.owning_buffers
      ∙ elim (same-cases b.buffer_name key) [
        | inl eq ↦
            let here : same b.buffer_name key ≡ true =
              ap (same b.buffer_name) (sym eq) ∙ same_self b.buffer_name in
            let free : find key h.channel.owning_buffers ≡ none =
              ap (λ k. find k h.channel.owning_buffers) (sym eq) ∙ g.free in
            rw here (sym free)
        | inr ne ↦ rw (same_ne b.buffer_name key ne) (g.others key ne)
      ]

  -- A block of a buffer that was registered and let go still passes for registered: it keeps the channel as
  -- its owner and a region that is no longer registered, and a request may be posted for it.
  pub deregister_stale :
      (i : ℕ) (b : Buffer) (s : Block)
      → register_buffer v p h ≡ ok h'
      → deregister_from_channel v p h' ≡ ok (r, h'')
      → 0 < h.channel.this
      → h.buffers p ≡ some b
      → get_elem? b.buffer_mgr i ≡ some s
      → 0 < s.buffer_size
      → 0 < s.data_ptr
      → (b'' : Buffer) × (s'' : Block) × (h''.buffers p ≡ some b'')
        × (b''.mr ≡ 0)
        × (get_elem? b''.buffer_mgr i ≡ some s'')
        × IsPostable s''
  deregister_stale i b s e e' this was at filled placed =
      let (b', s', now, at', _, good) =
        register_buffer-IsPostable v p i h h' b s e this was at filled placed in
      let (_, c, d) = deregister_from_channel-Deregistered v p h' h'' r e' in
      let same : b' ≡ c = (let y : h'.buffers p ≡ some c = d.was in cc) in
      (
        _,
        s',
        d.now,
        refl,
        subst (λ (x : Buffer). get_elem? x.buffer_mgr i ≡ some s') same at',
        good,
      )
