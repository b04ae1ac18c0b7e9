-- ===== src/Session/Defaults/Calls.antt =====
-- How many requests each call of a default callback posts.
use mathlib.Core.Path.{subst}
use rdma_comm_core.Prelude.{
  ℕ, ◌+◌, ◌≡◌, ap, ◌∙◌, Bool, some, List, [], ◌∷◌, length, arith, ok, ok-injective, bind_ensures,
}
use rdma_comm_core.Memory.{Memory}
use rdma_comm_core.Verbs.{Verbs, Trace, post_send, post_recv}
use rdma_comm_core.Buffer.{Block, fill_in}
use rdma_comm_core.Adapter.{Adapter, CommDescriptor}
use rdma_comm_core.Adapter.Transfer.{send_remote, recv_remote, read_remote, write_remote}
use rdma_comm_core.Adapter.Transfer.Bounds.{
  send_remote-Posted, recv_remote-RecvWr, read_remote-Posted, write_remote-Posted,
}
use rdma_comm_core.Tcp.{put}
use rdma_comm_core.Session.Defaults.{
  Runtime, Scene, posted, fill, call_recv, call_send, call_read, call_write,
}

-- The numbers of receive requests and of send requests in a trace.
abbrev pub receives : Trace → ℕ
receives [] = 0
receives (post_recv qp wr ∷ t) = receives t + 1
receives (c ∷ t) = receives t

abbrev pub sends : Trace → ℕ
sends [] = 0
sends (post_send qp wr ∷ t) = sends t + 1
sends (c ∷ t) = sends t

-- Between two scenes `r` receive requests and `k` send requests were posted.
pub record Posts (r k : ℕ) (s s' : Scene) : Type 0 where
  pub received : receives s'.host.world.trace ≡ receives s.host.world.trace + r
  pub sent : sends s'.host.world.trace ≡ sends s.host.world.trace + k

pub Posts-trans :
    {r k r' k' : ℕ} {s s' s'' : Scene}
    → Posts r k s s'
    → Posts r' k' s' s''
    → Posts (r + r') (k + k') s s''
Posts-trans p q = record {
  received = (let x = p.received in let y = q.received in omega arith);
  sent = (let x = p.sent in let y = q.sent in omega arith);
}

one_receive :
    (s : Scene) (t : Trace) (qp : ℕ) (a : Adapter)
    → (wr : _) → t ≡ post_recv qp wr ∷ s.host.world.trace
    → Posts 1 0 s (posted (a, t) s)
one_receive s t qp a wr e = record { received = ap receives e; sent = ap sends e ∙ omega arith }

one_send :
    (s : Scene) (t : Trace) (qp : ℕ) (a : Adapter)
    → (wr : _) → t ≡ post_send qp wr ∷ s.host.world.trace
    → Posts 0 1 s (posted (a, t) s)
one_send s t qp a wr e = record { received = ap receives e ∙ omega arith; sent = ap sends e }

module _ (v : Verbs) (b : Block) (n : ℕ) (s s' : Scene) where
  pub call_recv-Posts : call_recv v b n s ≡ ok s' → Posts 1 0 s s'
  call_recv-Posts e =
      bind_ensures Q (recv_remote v (some b) n s.host.channel.adapter s.host.world.trace) _
        (λ (r : Adapter × Trace) e₁ out f.
          let p = recv_remote-RecvWr v b n s.host.channel.adapter r.0 s.host.world.trace r.1 e₁ in
          subst Q (ok-injective f) (one_receive s r.1 s.host.channel.qp r.0 p.0 p.1))
        s' e
    where
      Q : Scene → Type 0
      Q x = Posts 1 0 s x

  pub call_send-Posts : (tag : ℕ) → call_send v b n tag s ≡ ok s' → Posts 0 1 s s'
  call_send-Posts tag e =
      bind_ensures Q (send_remote v (some b) n tag s.host.channel.adapter s.host.world.trace) _
        (λ (r : Adapter × Trace) e₁ out f.
          let p =
            send_remote-Posted v b n s.host.channel.adapter r.0 s.host.world.trace r.1 tag e₁ in
          subst Q (ok-injective f) (one_send s r.1 s.host.channel.qp r.0 p.0 p.1.traced))
        s' e
    where
      Q : Scene → Type 0
      Q x = Posts 0 1 s x

  pub call_read-Posts : (d : CommDescriptor) → call_read v b n d s ≡ ok s' → Posts 0 1 s s'
  call_read-Posts d e =
      bind_ensures Q (read_remote v (some b) n (some d) s.host.channel.adapter s.host.world.trace) _
        (λ (r : Adapter × Trace) e₁ out f.
          let p = read_remote-Posted v b n s.host.channel.adapter r.0 s.host.world.trace r.1 d e₁ in
          subst Q (ok-injective f) (one_send s r.1 s.host.channel.qp r.0 p.0 p.1.traced))
        s' e
    where
      Q : Scene → Type 0
      Q x = Posts 0 1 s x

  pub call_write-Posts :
      (d : CommDescriptor) (tag : ℕ) (notify : Bool)
      → call_write v b n d tag notify s ≡ ok s'
      → Posts 0 1 s s'
  call_write-Posts d tag notify e =
      bind_ensures Q
        (write_remote v (some b) n (some d) tag notify s.host.channel.adapter s.host.world.trace) _
        (λ (r : Adapter × Trace) e₁ out f.
          let p =
            write_remote-Posted v b n s.host.channel.adapter r.0 s.host.world.trace r.1 d tag notify
              e₁ in
          subst Q (ok-injective f) (one_send s r.1 s.host.channel.qp r.0 p.0 p.1.traced))
        s' e
    where
      Q : Scene → Type 0
      Q x = Posts 0 1 s x

pub fill-Posts :
    (rt : Runtime) (b : Block) (xs : List ℕ) (s s' : Scene)
    → fill rt b xs s ≡ ok s'
    → Posts 0 0 s s'
fill-Posts rt b xs s s' e =
    bind_ensures Q (fill_in b rt.scratch (length xs) (put rt.scratch xs s.memory)) _
      (λ (m : Memory) e₁ out f.
        subst Q (ok-injective f) (record { received = omega arith; sent = omega arith }))
      s' e
  where
    Q : Scene → Type 0
    Q x = Posts 0 0 s x
