-- ===== src/Config/Tests.antt =====
-- The theorems on the command line at concrete inputs.
use rdma_comm_core.Prelude.{ℕ, ◌≡◌, refl, String, inr, Option, none, some, List, [], ◌∷◌, ok}
use rdma_comm_core.Prelude.Int.{pos}
use rdma_comm_core.Config.{
  Config, Platform, defaults, server_client, case_of, get_local_ip, add_to_cluster, add_operands,
  take_option, check_wide, conflict_check, parse_options,
}
use rdma_comm_core.Config.Order.{le_text, sort}
use rdma_comm_core.Config.Cluster.{IsValid}
use rdma_comm_core.Config.Parse.{IsChecked, parse_options-IsChecked}

abbrev read_next : List (ℕ × String) → Option (ℕ × String) × List (ℕ × String)
read_next [] = (none, [])
read_next (o ∷ os) = (some o, os)

-- The options stand in a list; two operands follow --cluster's first, and the machine is one of them.
abbrev machine : Platform
machine = record {
  Cursor = List (ℕ × String);
  next = read_next;
  optind = λ k. 0;
  bump = λ k. k;
  argv = "10.0.0.9" ∷ "10.0.0.1" ∷ "--role" ∷ [];
  strtoul = λ s. 7;
  atoi = λ s. pos 3;
  found_ip = "10.0.0.9";
}

abbrev line : List (ℕ × String)
line = (b'u', "10.0.0.2") ∷ (b'p', "7") ∷ (263, "master") ∷ []

abbrev parsed : Config
parsed = record defaults {
  local_ip = "10.0.0.9";
  cluster = "10.0.0.1" ∷ "10.0.0.2" ∷ [];
  tcp_port = 7;
  role = "master";
  num_senders = pos 2;
}

parse_line : parse_options machine 4 line defaults ≡ ok (inr parsed)
unfolding parse_options case_of take_option add_operands add_to_cluster get_local_ip sort le_text
    conflict_check check_wide
parse_line = refl

defaults-IsValid : IsValid machine defaults
defaults-IsValid = record { ordered = tt; others = tt; port_valid = refl; gid_valid = refl }

parse_options-IsChecked_example : IsChecked machine parsed
parse_options-IsChecked_example =
    parse_options-IsChecked machine 4 line defaults parsed defaults-IsValid parse_line

abbrev unnamed : Config
unnamed = record defaults { all_reduce = server_client; local_ip = "10.0.0.9" }
