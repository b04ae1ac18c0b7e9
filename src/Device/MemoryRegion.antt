-- ===== src/Device/MemoryRegion.antt =====
-- real_register_mem and real_deregister_mem of src/rdma_device.cc.
use rdma_comm_core.Prelude.{
  ℕ, ◌≡◌, not, ◌==◌, ltb, ◌<◌, arith, [], ◌∷◌, Outcome, ok, ◌>>◌, check, fatal_if,
}
use rdma_comm_core.Verbs.{
  Verbs, Trace, local_write, remote_read, remote_write, reg_mr, dereg_mr, ask,
}

module _ (v : Verbs) where
  unfoldable pub real_register_mem : ℕ → ℕ → ℕ → ℕ → Trace → Outcome (ℕ × Trace)
  real_register_mem pd data_ptr size_in_byte access_flags t = do
    check (not (pd == 0))
    let flags = local_write ∷ remote_read ∷ remote_write ∷ []
    check (ltb 0 size_in_byte)
    check (not (data_ptr == 0))
    let (mr, t') = ask v (reg_mr pd data_ptr size_in_byte flags) t
    fatal_if (mr == 0)
    ok (mr, t')

  unfoldable pub real_deregister_mem : ℕ → Trace → Outcome Trace
  real_deregister_mem mr t = do
    let (rc, t') = ask v (dereg_mr mr) t
    fatal_if (not (rc == 0))
    ok t'

  -- A registration that returns made one call, on the memory it was given and with all three rights,
  -- whatever access flags it was given; the region is not null.
  pub real_register_mem_lem :
      (pd data_ptr size access_flags mr : ℕ) (t t' : Trace)
      → real_register_mem pd data_ptr size access_flags t ≡ ok (mr, t')
      → (t' ≡ reg_mr pd data_ptr size (local_write ∷ remote_read ∷ remote_write ∷ []) ∷ t)
        × (0 < mr)
        × (0 < size)
        × (0 < data_ptr)
        × (0 < pd)
  unfolding real_register_mem
  real_register_mem_lem pd data_ptr size access_flags mr t t' e = ground arith
