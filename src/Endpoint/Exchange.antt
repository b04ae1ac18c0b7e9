-- ===== src/Endpoint/Exchange.antt =====
-- What the exchange of the adapters' data gives.
use mathlib.Core.Path.{subst}
use rdma_comm_core.Prelude.{
  ℕ, zero, suc, ◌+◌, ◌<◌, ◌≡◌, refl, sym, ap, ◌∙◌, some, List, [], ◌∷◌, length, get_elem?, arith,
  get_elem?-lt, ok,
}
use rdma_comm_core.Prelude.Int.{pos}
use rdma_comm_core.Memory.{Memory}
use rdma_comm_core.Verbs.{Verbs}
use rdma_comm_core.Device.{World}
use rdma_comm_core.Adapter.{Adapter, AdapterInfo, AdapterState}
use rdma_comm_core.Adapter.Loading.{loading}
use rdma_comm_core.Adapter.Connect.Moves.{handshake, IsConnectable, connecting_total}
use rdma_comm_core.Channel.{Channel}
use rdma_comm_core.Tcp.{Net, TcpConnector, Wire, put, load}
use rdma_comm_core.Tcp.Receive.{IsStream, put_in}
use rdma_comm_core.Tcp.Sync.{HasSocket, sock_sync_data-Received}
use rdma_comm_core.Endpoint.{Layout, Frame, Site, sync_with_peer, connect_channel}

-- The bytes `xs` stand in `f` from `k` on.
abbrev pub Stand : List ℕ → (ℕ → ℕ) → ℕ → Type 0
Stand xs f k = (j : ℕ) → j < length xs → get_elem? xs j ≡ some (f (k + j))

load-Stand : (xs : List ℕ) (p : ℕ) (m : Memory) → Stand xs m p → load p (length xs) m ≡ xs
unfolding load
load-Stand [] p m h = refl
load-Stand (x ∷ xs) p m h =
    let first : some x ≡ some (m (p + 0)) = h 0 (omega arith) in
    let rest =
      load-Stand xs (p + 1) m
        (λ j l. h (suc j) (omega arith) ∙ ap (λ n. some (m n)) (omega arith)) in
    let here : p + 0 ≡ p = omega arith in
    let first' : some x ≡ some (m p) = first ∙ ap (λ n. some (m n)) here in cc

put-Stand : (xs : List ℕ) (p : ℕ) (m : Memory) → load p (length xs) (put p xs m) ≡ xs
put-Stand xs p m =
    load-Stand xs p (put p xs m)
      (λ j l. let (x, e) = get_elem?-lt xs j l in e ∙ ap some (sym (put_in p j x xs m l e)))

length-load : (p n : ℕ) (m : Memory) → length (load p n m) ≡ n
unfolding load
length-load p zero m = refl
length-load p (suc n) m = omega (arith, length-load (p + 1) n m)

-- send() that takes all that it is given.
abbrev pub TakesAll : Net → Type 0
TakesAll net =
    (before : List (List ℕ)) (bytes : List ℕ) → net.send before bytes ≡ pos (length bytes)

-- The compiler lays the object out in the fixed number of bytes, and it can be read from them.
pub record IsLaidOut (layout : Layout) (i : AdapterInfo) : Type 0 where
  pub sized : length (layout.encode i) ≡ layout.size
  pub readable : layout.decode (layout.encode i) ≡ i

-- What a connection has done: the channel's adapter has the peer's data and is connecting, its own data went
-- out, and one byte more was exchanged to agree on the end.
pub record Connected (v : Verbs) (layout : Layout) (peer i : AdapterInfo) (a : Adapter) (u : World)
    (s s' : Site) (c c' : Channel) : Type 0 where
  pub adapter : c'.adapter ≡ record a { remote = peer; status = AdapterState.connecting }
  pub sent : (q : List ℕ) × (s'.wire.sent ≡ q ∷ layout.encode i ∷ s.wire.sent)
  pub taken : s'.wire.taken ≡ s.wire.taken + layout.size + 1
  pub world : s'.world ≡ record u { trace = handshake v (record a { remote = peer }) u.trace }

module _ (net : Net) (str : ℕ → ℕ) (stream : IsStream net str) (takes : TakesAll net)
    (frame : Frame) (fuel : ℕ) where
  pub sync_with_peer_lem :
      (w : Wire)
      → HasSocket w
      → 1 < fuel
      → (w' : Wire) × (sync_with_peer net frame fuel w ≡ ok w')
        × (w'.sent ≡ load frame.literal 1 w.memory ∷ w.sent)
        × (w'.taken ≡ w.taken + 1)
        × (w'.connector ≡ w.connector)
  unfolding sync_with_peer
  sync_with_peer_lem w sock f =
      let takes_one =
        takes w.sent (load frame.literal 1 w.memory)
        ∙ ap pos (length-load frame.literal 1 w.memory) in
      let (w', e, r) =
        sock_sync_data-Received net str stream fuel 1 w frame.literal frame.temp_char sock f
          takes_one in
      (w', rw e refl, r.sent, r.taken, r.connector)

  -- Where the loading of a channel returns, and the peer's data is next in its stream, an endpoint connects
  -- the channel to just that peer, if the two adapters can be connected.
  pub connect_channel-Connected :
      (v : Verbs) (layout : Layout) (peer i : AdapterInfo) (a : Adapter) (u : World) (c : Channel)
      (s : Site)
      → IsLaidOut layout i
      → IsLaidOut layout peer
      → HasSocket s.wire
      → layout.size < fuel
      → 1 < fuel
      → loading v fuel c.adapter s.world ≡ ok (i, a, u)
      → Stand (layout.encode peer) str s.wire.taken
      → IsConnectable v peer a u
      → (c' : Channel) × (s' : Site) × (connect_channel v net layout frame fuel c s ≡ ok (c', s'))
        × Connected v layout peer i a u s s' c c'
  unfolding connect_channel
  connect_channel-Connected v layout peer i a u c s mine lay sock f f1 loads next can =
      let w : Wire = record (s.wire) {
        memory = put frame.adapt_info (layout.encode i) s.wire.memory;
      } in
      let own : load frame.adapt_info layout.size w.memory ≡ layout.encode i =
        subst (λ n. load frame.adapt_info n w.memory ≡ layout.encode i) mine.sized
          (put-Stand (layout.encode i) frame.adapt_info s.wire.memory) in
      let takes_it : net.send w.sent (load frame.adapt_info layout.size w.memory)
          ≡ pos layout.size =
        takes w.sent (load frame.adapt_info layout.size w.memory)
        ∙ ap pos (length-load frame.adapt_info layout.size w.memory) in
      let (w', e, r) =
        sock_sync_data-Received net str stream fuel layout.size w frame.adapt_info frame.peer_info
          sock f takes_it in
      let got : load frame.peer_info layout.size w'.memory ≡ layout.encode peer =
        subst (λ n. load frame.peer_info n w'.memory ≡ layout.encode peer) (lay.sized)
          (load-Stand (layout.encode peer) frame.peer_info w'.memory
            (λ j l. next j l ∙ ap some (sym (r.bytes j (let z = lay.sized in omega arith))))) in
      let read : layout.decode (load frame.peer_info layout.size w'.memory) ≡ peer =
        ap layout.decode got ∙ lay.readable in
      let (w'', e', q, t, _) =
        sync_with_peer_lem w' (sock.0, ap (λ (x : TcpConnector). x.root_sock) r.connector ∙ sock.1)
          f1 in
      (
        record c { adapter = record a { remote = peer; status = AdapterState.connecting } },
        record {
          wire = w'';
          world = record u { trace = handshake v (record a { remote = peer }) u.trace };
        },
        rw (loads, e, read, connecting_total v peer a u can, e') refl,
        record {
          adapter = refl;
          sent = (
            load frame.literal 1 w'.memory,
            q
                ∙ ap (λ l. load frame.literal 1 w'.memory ∷ l)
                    (r.sent ∙ ap (λ b. b ∷ s.wire.sent) own),
          );
          taken = (let x = r.taken in omega (arith, t));
          world = refl;
        },
      )
