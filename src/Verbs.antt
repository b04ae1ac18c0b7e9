-- ===== src/Verbs.antt =====
-- libibverbs, the library that the code drives. None of it is in the repository: what it answers is a
-- parameter, a function of the calls that were made before, and the model records every call.
-- Enumerations of the library are constructors here, or fields of `Verbs` where only their number is
-- used. A pointer is a number and 0 is NULL; a return code is a number and 0 is success.
use rdma_comm_core.Prelude.{ℕ, String, List, ◌∷◌, Bool, Option}

pub data Access : Type 0 where
  local_write remote_read remote_write : Access

-- struct ibv_port_attr, the fields that are read
pub record PortAttr : Type 0 where
  pub state : ℕ
  pub active_mtu : ℕ
  pub lid : ℕ
  pub link_layer : ℕ

-- struct ibv_qp_init_attr; the type is IBV_QPT_RC and srq is NULL
pub record QpInitAttr : Type 0 where
  pub sq_sig_all : Bool
  pub send_cq : ℕ
  pub recv_cq : ℕ
  pub max_send_wr : ℕ
  pub max_recv_wr : ℕ
  pub max_send_sge : ℕ
  pub max_recv_sge : ℕ
  pub max_inline_data : ℕ

pub record Route : Type 0 where
  pub dgid : ℕ
  pub flow_label : ℕ
  pub hop_limit : ℕ
  pub sgid_index : ℕ
  pub traffic_class : ℕ

-- The attributes of a move to RTR; `grh` is there when is_global is 1.
pub record RtrAttr : Type 0 where
  pub path_mtu : ℕ
  pub dest_qp_num : ℕ
  pub rq_psn : ℕ
  pub max_dest_rd_atomic : ℕ
  pub min_rnr_timer : ℕ
  pub dlid : ℕ
  pub sl : ℕ
  pub src_path_bits : ℕ
  pub port_num : ℕ
  pub grh : Option Route

pub record RtsAttr : Type 0 where
  pub timeout : ℕ
  pub retry_cnt : ℕ
  pub rnr_retry : ℕ
  pub sq_psn : ℕ
  pub max_rd_atomic : ℕ

-- The four calls of ibv_modify_qp, each with the attributes that its flags name.
pub data QpMove : Type 0 where
  to_reset : QpMove
  to_init : ℕ → ℕ → List Access → QpMove
  to_rtr : RtrAttr → QpMove
  to_rts : RtsAttr → QpMove

-- struct ibv_sge, the one entry of each request's list
pub record Sge : Type 0 where
  pub addr : ℕ
  pub size : ℕ
  pub lkey : ℕ

-- The operation of a send request, with its immediate data, remote address and remote key.
pub data Opcode : Type 0 where
  send_with_imm : ℕ → Opcode
  rdma_write : ℕ → ℕ → Opcode
  rdma_write_with_imm : ℕ → ℕ → ℕ → Opcode
  rdma_read : ℕ → ℕ → Opcode

pub record SendWr : Type 0 where
  pub wr_id : ℕ
  pub sge : Sge
  pub opcode : Opcode
  pub signaled : Bool

pub record RecvWr : Type 0 where
  pub wr_id : ℕ
  pub sge : Sge

-- The calls of the library that change something, or whose result the code reads.
pub data Call : Type 0 where
  open_device : String → Call
  query_device : ℕ → Call
  query_port : ℕ → ℕ → Call
  query_gid : ℕ → ℕ → ℕ → Call
  create_comp_channel : ℕ → Call
  alloc_pd : ℕ → Call
  create_cq : ℕ → ℕ → ℕ → ℕ → ℕ → Call
  create_qp : ℕ → QpInitAttr → Call
  query_qp : ℕ → Call
  modify_qp : ℕ → QpMove → Call
  post_send : ℕ → SendWr → Call
  post_recv : ℕ → RecvWr → Call
  poll_cq : ℕ → ℕ → Call
  reg_mr : ℕ → ℕ → ℕ → List Access → Call
  dereg_mr : ℕ → Call

-- The calls so far, the latest first.
abbrev pub Trace : Type 0
Trace = List Call

pub data WcOpcode : Type 0 where
  wc_send wc_recv wc_rdma_write wc_rdma_read wc_recv_rdma_with_imm wc_other : WcOpcode

-- struct ibv_wc, the fields that are read; `success` is status == IBV_WC_SUCCESS
pub record Wc : Type 0 where
  pub wr_id : ℕ
  pub success : Bool
  pub opcode : WcOpcode
  pub byte_len : ℕ
  pub imm_data : ℕ
  pub with_imm : Bool

pub record Verbs : Type 0 where
  pub answer : Trace → Call → ℕ
  -- ibv_get_device_list and ibv_get_device_name; none is NULL
  pub device_list : Option (List String)
  pub phys_port_cnt : Trace → ℕ → ℕ
  pub port_attr : Trace → ℕ → ℕ → PortAttr
  pub gid : Trace → ℕ → ℕ → ℕ → ℕ
  -- ibv_poll_cq; none is a negative result
  pub poll : Trace → ℕ → ℕ → Option (List Wc)
  pub lkey : ℕ → ℕ
  pub rkey : ℕ → ℕ
  pub qp_num : ℕ → ℕ
  pub port_active : ℕ
  pub ethernet : ℕ

-- One call: its answer, and the trace after it.
abbrev pub ask : Verbs → Call → Trace → ℕ × Trace
ask v c t = (v.answer t c, c ∷ t)
