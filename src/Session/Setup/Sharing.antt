-- ===== src/Session/Setup/Sharing.antt =====
-- The channels of a server share one completion queue, which one thread polls.
use mathlib.Core.Path.{subst}
use rdma_comm_core.Prelude.{
  append_nil, append_assoc, ℕ, ◌≡◌, refl, sym, ap, ◌∙◌, String, false, List, [], ◌∷◌, ◌++◌, All,
  arith, ok,
}
use Prim.Native.String.{◌++◌ as join}
use rdma_comm_core.Verbs.{Verbs}
use rdma_comm_core.Device.{World}
use rdma_comm_core.Adapter.{Adapter}
use rdma_comm_core.Adapter.Loading.Shared.{Wants, load_each, load_each-All}
use rdma_comm_core.Session.{push_channel, group_channels, running}
use rdma_comm_core.Session.Setup.{lazy_config_server}

-- A channel's adapter that has no resources yet and names the device.
abbrev pub IsFresh : String → Adapter → Type 0
IsFresh name a = (a.resource_is_allocated ≡ false) × (a.config.dev_name ≡ name)

lazy_config_server-All :
    (name info : String) (xs : List Adapter)
    → All (IsFresh name) xs
    → All (Wants name (join "SharedCQ@" info)) (lazy_config_server info xs)
unfolding lazy_config_server
lazy_config_server-All name info [] h = tt
lazy_config_server-All name info (a ∷ xs) h = (
  record { fresh = h.0.0; shared = refl; device = h.0.1; queue = refl },
  lazy_config_server-All name info xs h.1,
)

group_alike :
    (cq : ℕ) (ms xs : List Adapter)
    → All (λ (a : Adapter). a.used_cq ≡ cq) xs
    → group_channels xs ((cq, ms) ∷ []) ≡ (cq, ms ++ xs) ∷ []
unfolding group_channels push_channel
group_alike cq ms [] h = ap (λ xs. (cq, xs) ∷ []) (sym (append_nil ms))
group_alike cq ms (x ∷ xs) h =
    let here : push_channel x ((cq, ms) ∷ []) ≡ (cq, ms ++ x ∷ []) ∷ [] =
      (let e = h.0 in ground arith) in
    ap (group_channels xs) here
    ∙ group_alike cq (ms ++ x ∷ []) xs h.1
    ∙ ap (λ ys. (cq, ys) ∷ []) (append_assoc ms (x ∷ []) xs)

-- The adapters of a server that are configured by lazy_config_hca, and that then load on one device in
-- whatever order, use one completion queue; so `running` starts one thread, for all of them.
pub running_shared :
    (v : Verbs) (fuel : ℕ) (name info : String) (xs ys : List Adapter) (a : Adapter) (w w' : World)
    → All (IsFresh name) xs
    → load_each v fuel (lazy_config_server info xs) w ≡ ok (a ∷ ys, w')
    → running (a ∷ ys) ≡ (a.used_cq, a ∷ ys) ∷ []
unfolding running group_channels push_channel
running_shared v fuel name info xs ys a w w' fresh e =
    let (cq, alike) =
      load_each-All v fuel name (join "SharedCQ@" info) (lazy_config_server info xs) (a ∷ ys) w w'
        (lazy_config_server-All name info xs fresh) e in
    let same : All (λ (b : Adapter). b.used_cq ≡ a.used_cq) ys =
      subst (λ n. All (λ (b : Adapter). b.used_cq ≡ n) ys) (sym alike.0) alike.1 in
    group_alike a.used_cq (a ∷ []) ys same
