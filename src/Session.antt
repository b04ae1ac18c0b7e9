-- ===== src/Session.antt =====
-- src/rdma_session.cc: the callbacks of a session, the loop that polls the completion queues and hands every
-- completion to its callback, and the grouping of the channels by completion queue. Threads are not modelled:
-- each group is one run of process_CQ.
pub mod Defaults
pub mod Dispatch
pub mod Groups
pub mod Setup
mod Tests
use rdma_comm_core.Prelude.{
  ℕ, zero, suc, Bool, true, false, not, Option, none, some, List, [], ◌∷◌, ◌++◌, ◌==◌,
  if◌then◌else◌, Outcome, ok, fault, log_fatal, no_fuel, ◌>>=◌, ◌>>◌, fatal_if,
}
use rdma_comm_core.Verbs.{
  Verbs, Trace, Wc, WcOpcode, wc_send, wc_recv, wc_rdma_write, wc_rdma_read, wc_recv_rdma_with_imm,
  wc_other,
}
use rdma_comm_core.Device.{World}
use rdma_comm_core.Adapter.{Adapter}
use rdma_comm_core.Adapter.Connect.{show_qp_info}
use rdma_comm_core.Adapter.Transfer.{poll_cq_batch}

-- What a callback does to the state `S` of the program and to the devices.
abbrev pub Handler {ℓ} : Type ℓ → Type ℓ
Handler S = Wc → S × World → Outcome (S × World)

pub record Callbacks {ℓ} (S : Type ℓ) : Type ℓ where
  pub established_done : List Adapter → S × World → Outcome (S × World)
  pub process_send_done : Handler S
  pub process_recv_done : Handler S
  pub process_recv_write_with_imm_done : Handler S
  pub process_write_done : Handler S
  pub process_read_done : Handler S

-- `if (callback != nullptr) callback_ = callback`
abbrev or_keep {ℓ} : {A : Type ℓ} → Option A → A → A
or_keep none old = old
or_keep (some new) old = new

module _ {ℓ} {S : Type ℓ} where
  unfoldable pub register_event_callback :
      Option (List Adapter → S × World → Outcome (S × World))
      → Option (Handler S)
      → Option (Handler S)
      → Option (Handler S)
      → Option (Handler S)
      → Option (Handler S)
      → Callbacks S
      → Bool × Callbacks S
  register_event_callback established send recv recv_imm write read c = (
    true,
    record {
      established_done = or_keep established c.established_done;
      process_send_done = or_keep send c.process_send_done;
      process_recv_done = or_keep recv c.process_recv_done;
      process_recv_write_with_imm_done = or_keep recv_imm c.process_recv_write_with_imm_done;
      process_write_done = or_keep write c.process_write_done;
      process_read_done = or_keep read c.process_read_done;
    },
  )

  -- The switch over the opcode.
  unfoldable pub dispatch : Callbacks S → WcOpcode → Handler S
  dispatch c wc_send wc s = c.process_send_done wc s
  dispatch c wc_recv wc s = c.process_recv_done wc s
  dispatch c wc_rdma_write wc s = c.process_write_done wc s
  dispatch c wc_rdma_read wc s = c.process_read_done wc s
  dispatch c wc_recv_rdma_with_imm wc s = c.process_recv_write_with_imm_done wc s
  dispatch c wc_other wc s = fault log_fatal

  module _ (v : Verbs) where
    -- The loop over the completions that one poll of `channel` gave.
    unfoldable pub process_batch : Callbacks S → Adapter → List Wc → S × World → Outcome (S × World)
    process_batch c channel [] s = ok s
    process_batch c channel (wc ∷ wcs) s = elim wc.success [
      | true ↦ dispatch c wc.opcode wc s >>= process_batch c channel wcs
      | false ↦ show_qp_info v channel s.1 >>= λ w. fault log_fatal
    ]

    -- The loop over the channels of a queue. A poll that fails gives a negative number of completions,
    -- and the loop over them makes no round.
    unfoldable pub process_channels : Callbacks S → List Adapter → S × World → Outcome (S × World)
    process_channels c [] s = ok s
    process_channels c (channel ∷ channels) s = do
      (polled, t) ← poll_cq_batch v 128 channel s.1.trace
      let s' : S × World = (s.0, record (s.1) { trace = t })
      s'' ← elim polled [ none ↦ ok s' | some wcs ↦ process_batch c channel wcs s' ]
      process_channels c channels s''

    -- `do ... while (true)`, for as many rounds as there is fuel.
    unfoldable pub process_rounds : ℕ → Callbacks S → List Adapter → S × World → Outcome (S × World)
    process_rounds zero c channels s = fault no_fuel
    process_rounds (suc fuel) c channels s =
        process_channels c channels s >>= process_rounds fuel c channels

    unfoldable pub process_cq : ℕ → Callbacks S → List Adapter → S × World → Outcome (S × World)
    process_cq fuel c channels s = c.established_done channels s >>= process_rounds fuel c channels

-- `all_channel` of `running`: the channels of every completion queue.
abbrev pub Groups : Type 0
Groups = List (ℕ × List Adapter)

-- all_channel[channel->get_completQ()].push_back(channel), where the queue has an entry or gets one.
unfoldable pub push_channel : Adapter → Groups → Groups
push_channel a [] = (a.used_cq, a ∷ []) ∷ []
push_channel a ((cq, members) ∷ groups) =
    if a.used_cq == cq
    then (cq, members ++ a ∷ []) ∷ groups
    else (cq, members) ∷ push_channel a groups

unfoldable pub group_channels : List Adapter → Groups → Groups
group_channels [] groups = groups
group_channels (a ∷ channels) groups = group_channels channels (push_channel a groups)

-- `running` up to its threads: what each is started with.
unfoldable pub running : List Adapter → Groups
running channels = group_channels channels []
