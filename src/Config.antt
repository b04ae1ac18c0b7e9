-- ===== src/Config.antt =====
-- include/config.h and include/rdma_config.h: the configuration, as the command line sets it. getopt_long,
-- strtoul, atoi and the address that NetTool finds are parameters; printing is not modelled.
pub mod Order
pub mod Cluster
pub mod Parse
mod Tests
use Prim.Native.Char.{code}
use Prim.Native.String.{String as Text}
use rdma_comm_core.Prelude.{
  ℕ, zero, suc, ◌+◌, ◌-◌, ◌%◌, ◌^◌, String, Bool, true, false, not, ◌&&◌, ◌||◌, ◌⊎◌, inl, inr,
  Option, none, some, List, [], ◌∷◌, ◌++◌, ◌==◌, leb, ltb, if◌then◌else◌, length, drop, Outcome, ok,
  fault, log_fatal, no_fuel, ◌>>=◌, ◌>>◌, fatal_if, same,
}
use rdma_comm_core.Prelude.Int.{ℤ, pos, negsuc}
use rdma_comm_core.Config.Order.{sort}

pub data AllReduceType : Type 0 where
  unknown server_client full_mesh ring tree double_binary_tree : AllReduceType

-- Config, and Derived_Config, which adds `all_reduce`.
pub record Config : Type 0 where
  pub dev_name : String
  pub server_name : String
  pub serve_as_client : Bool
  pub tcp_port : ℕ
  pub ib_port : ℤ
  pub gid_idx : ℤ
  pub traffic_class : ℕ
  pub use_event : Bool
  pub data_msg_size : ℤ
  pub ctrl_msg_size : ℤ
  pub msg_block_num : ℤ
  pub local_ip : String
  pub cluster : List String
  pub num_senders : ℤ
  pub single_recv : Bool
  pub service_type : ℤ
  pub tree_width : ℤ
  pub sub_groups : List (List String)
  pub role : String
  pub master_ip : String
  pub session_id : String
  pub all_reduce : AllReduceType

abbrev pub defaults : Config
defaults = record {
  dev_name = "mlx5_0";
  server_name = "";
  serve_as_client = false;
  tcp_port = 2020;
  ib_port = pos 1;
  gid_idx = pos 3;
  traffic_class = 0;
  use_event = false;
  data_msg_size = pos 1000;
  ctrl_msg_size = pos 4;
  msg_block_num = pos 2;
  local_ip = "";
  cluster = [];
  num_senders = pos 0;
  single_recv = false;
  service_type = pos 0;
  tree_width = pos 0;
  sub_groups = [];
  role = "";
  master_ip = "";
  session_id = "";
  all_reduce = unknown;
}

-- The library of the command line and of the machine. `Cursor` is the state of getopt_long: `next` is a call
-- of it, with the code of the option and optarg, or none for -1; `optind` is the index of the next argument,
-- and `bump` is optind++.
pub record Platform : Type 1 where
  pub Cursor : Type 0
  pub next : Cursor → Option (ℕ × String) × Cursor
  pub optind : Cursor → ℕ
  pub bump : Cursor → Cursor
  pub argv : List String
  pub strtoul : String → ℕ
  pub atoi : String → ℤ
  pub found_ip : String

-- The conversions of an unsigned long to uint32_t and to int.
abbrev to_uint32 : ℕ → ℕ
to_uint32 n = n % 2 ^ 32

abbrev pub to_int : ℕ → ℤ
to_int n = let k = n % 2 ^ 32 in if ltb k (2 ^ 31) then pos k else negsuc (2 ^ 32 - 1 - k)

abbrev pub is_negative : ℤ → Bool
is_negative (pos n) = false
is_negative (negsuc n) = true

abbrev pub is_zero : ℤ → Bool
is_zero (pos n) = n == 0
is_zero (negsuc n) = false

-- x > 0
abbrev pub is_positive : ℤ → Bool
is_positive (pos n) = ltb 0 n
is_positive (negsuc n) = false

-- arg[0] != '-'
abbrev pub is_operand : String → Bool
is_operand Text.[] = true
is_operand (Text.◌∷◌ c s) = not (code c == b'-')

abbrev pub is_tree : AllReduceType → Bool
is_tree tree = true
is_tree _ = false

abbrev pub is_server_client : AllReduceType → Bool
is_server_client server_client = true
is_server_client _ = false

-- The case of --topo; another name changes nothing.
unfoldable pub topology : String → AllReduceType → AllReduceType
topology name old =
    if same name "full-mesh"
    then full_mesh
    else if same name "double-binary-tree" || same name "dbt"
    then double_binary_tree
    else if same name "ring"
    then ring
    else if same name "tree"
    then tree
    else if same name "server-client"
    then server_client
    else old

-- The cases of the switch in parse_args. Those that only print, and an option without a case, are `other`.
pub data Case : Type 0 where
  help cluster port ib_dev ib_port gid_idx server traffic_class : Case
  event_channel msg_size num single_recv topo tree_width role master other : Case

unfoldable pub case_of : ℕ → Case
case_of option =
    if option == b'h'
    then Case.help
    else if option == b'u'
    then Case.cluster
    else if option == b'p'
    then Case.port
    else if option == b'd'
    then Case.ib_dev
    else if option == b'i'
    then Case.ib_port
    else if option == b'g'
    then Case.gid_idx
    else if option == b's'
    then Case.server
    else if option == b't'
    then Case.traffic_class
    else if option == b'e'
    then Case.event_channel
    else if option == 257
    then Case.msg_size
    else if option == 258
    then Case.num
    else if option == 259
    then Case.single_recv
    else if option == 261
    then Case.topo
    else if option == 262
    then Case.tree_width
    else if option == 263
    then Case.role
    else if option == 264
    then Case.master
    else Case.other

-- The process exits with a code, or there is a configuration.
abbrev pub Ending : Type 0
Ending = ℤ ⊎ Config

-- `if (num_senders == 0 && cluster.size() != 0) num_senders = cluster.size();`
abbrev pub widen : Config → Config
widen c =
    if is_zero c.num_senders && not (length c.cluster == 0)
    then record c { num_senders = pos (length c.cluster) }
    else c

-- `serve_as_client = this_ip != server_name`
abbrev pub choose_side : String × Config → Config
choose_side (this_ip, c) = record c { serve_as_client = not (same this_ip c.server_name) }

module _ (p : Platform) where
  open p use {Cursor, next, optind, bump, argv, strtoul, atoi, found_ip}

  -- get_local_ip: the address, and the configuration that keeps it.
  unfoldable pub get_local_ip : Config → String × Config
  get_local_ip c =
      if same c.local_ip "" then (found_ip, record c { local_ip = found_ip }) else (c.local_ip, c)

  unfoldable pub set_server_name : String → Config → Config
  unfolding get_local_ip
  set_server_name ip c =
      let (my_ip, c') = get_local_ip c in
      if same my_ip ip
      then record c' { server_name = ip; serve_as_client = false }
      else record c' { serve_as_client = true; server_name = ip }

  unfoldable pub add_to_cluster : String → Config → Config
  add_to_cluster ip c =
      let (my_ip, c') = get_local_ip c in
      record c' { cluster = sort (if same my_ip ip then c'.cluster else c'.cluster ++ ip ∷ []) }

  -- The inner loop of --cluster, over the arguments from optind on.
  unfoldable pub add_operands : List String → Cursor → Config → Cursor × Config
  add_operands [] k c = (k, c)
  add_operands (arg ∷ args) k c = elim (is_operand arg) [
    | true ↦ add_operands args (bump k) (add_to_cluster arg c)
    | false ↦ (k, c)
  ]

  -- conflict_check: the exit code, or the configuration. First its checks, on what `widen` leaves.
  unfoldable pub check_wide : Config → Outcome Ending
  check_wide c =
      let goes_on = not (c.single_recv && is_zero c.num_senders) in
      let goes_on' = goes_on && not (is_tree c.all_reduce && not (is_positive c.tree_width)) in
      elim (goes_on' && is_server_client c.all_reduce) [
        | true ↦
            fatal_if (same c.server_name "" && c.serve_as_client)
            >> ok (inr (choose_side (get_local_ip c)))
        | false ↦ if goes_on' then ok (inr c) else ok (inl (negsuc 0))
      ]

  unfoldable pub conflict_check : Config → Outcome Ending
  conflict_check c = check_wide (widen c)

  -- The cases of the switch; `k` is the cursor after the option.
  unfoldable pub take_option : Case → String → Cursor → Config → Ending × Cursor
  take_option help optarg k c = (inl (pos 0), k)
  take_option cluster optarg k c =
      let (k', c') = add_operands (drop (optind k) argv) k (add_to_cluster optarg c) in (inr c', k')
  take_option port optarg k c = (inr (record c { tcp_port = to_uint32 (strtoul optarg) }), k)
  take_option ib_dev optarg k c = (inr (record c { dev_name = optarg }), k)
  take_option ib_port optarg k c =
      let n = to_int (strtoul optarg) in
      if is_negative n then (inl (negsuc 0), k) else (inr (record c { ib_port = n }), k)
  take_option gid_idx optarg k c =
      let n = to_int (strtoul optarg) in
      if is_negative n then (inl (negsuc 0), k) else (inr (record c { gid_idx = n }), k)
  take_option server optarg k c = (inr (set_server_name optarg c), k)
  take_option traffic_class optarg k c =
      (inr (record c { traffic_class = to_uint32 (strtoul optarg) }), k)
  take_option event_channel optarg k c = (inr (record c { use_event = true }), k)
  take_option msg_size optarg k c = (inr (record c { data_msg_size = atoi optarg }), k)
  take_option num optarg k c = (inr (record c { num_senders = atoi optarg }), k)
  take_option single_recv optarg k c = (inr (record c { single_recv = true }), k)
  take_option topo optarg k c = (inr (record c { all_reduce = topology optarg c.all_reduce }), k)
  take_option tree_width optarg k c = (inr (record c { tree_width = atoi optarg }), k)
  take_option role optarg k c = (inr (record c { role = optarg }), k)
  take_option master optarg k c = (inr (record c { master_ip = optarg }), k)
  take_option other optarg k c = (inr c, k)

  -- The loop over the options, and the check after it.
  unfoldable pub parse_options : ℕ → Cursor → Config → Outcome Ending
  parse_options zero k c = fault no_fuel
  parse_options (suc fuel) k c =
      let (read, k₁) = next k in
      elim read [
        | none ↦ conflict_check c
        | some (option, optarg) ↦
            let (ending, k₂) = take_option (case_of option) optarg k₁ c in
            elim ending [ inl exit ↦ ok (inl exit) | inr c' ↦ parse_options fuel k₂ c' ]
      ]

  unfoldable pub parse_args : ℕ → Cursor → Config → Outcome Ending
  parse_args fuel k c = parse_options fuel k c
