-- ===== src/Pods/ConfigTests.antt =====
-- The network config of a pod that names the subnet ten, of the overlay network big.
use container_advanced_netwo.Common.{◌≡◌, refl, str_dec, false, none, [], ◌∷◌}
use container_advanced_netwo.Common.Map
use container_advanced_netwo.Ipam.Base.{ok}
use container_advanced_netwo.Ipam.Types.{overlay, ipv4}
use container_advanced_netwo.Webhook.Refusal.{found}
use container_advanced_netwo.Webhook.Tests.{big, ten}
use container_advanced_netwo.Pods.Strategy.{Lookups}
use container_advanced_netwo.Pods.Config.{
  elected, matching, valid_config, fetch_from_object, type_of_network, is_valid_network_type,
  specified_subnet_str_to_subnet_names, agree, type_of, family_of,
  select_network_and_subnet_from_object, retained_config, network_of_subnets, join_network,
  is_valid_family_mode, fetch_by_priority, complete, NetworkConfig,
  parse_network_config_of_pod_by_priority,
}
use container_advanced_netwo.Api.{type_or_default, get_network_type, same_type}
use container_advanced_netwo.Pods.Texts.{
  parse_ip_family_from_string, parse_ip_family_from_env, parse_network_type_from_string,
}
use container_advanced_netwo.Pods.Types.{first_of, own_by_stateful_workload, Pod}
use container_advanced_netwo.Pods.Config.Chosen.{
  Chosen, parse_network_config_of_pod_by_priority-Chosen,
}
use container_advanced_netwo.Pods.Tests.{texts, web, cluster}

abbrev choosy : Pod
choosy = record web { annotations = ("networking.alibaba.com/specified-subnet", "ten") ∷ [] }

abbrev with_subnet : Lookups
with_subnet = record cluster { network = λ _. found big; subnet = λ _. found ten }

abbrev config : NetworkConfig
config = record {
  network = "big";
  subnets = "ten";
  type = overlay;
  family = ipv4;
  node_selector = [];
  retained = false;
}

choosy_config :
    parse_network_config_of_pod_by_priority texts with_subnet []
      (λ _. none)
      (λ _ _. ok [])
      (λ _ _. ok [])
      choosy
    ≡ ok config
unfolding parse_network_config_of_pod_by_priority str_dec retained_config own_by_stateful_workload
    fetch_by_priority fetch_from_object select_network_and_subnet_from_object
    specified_subnet_str_to_subnet_names first_of Map.get network_of_subnets join_network agree
    elected complete type_of matching same_type type_of_network is_valid_family_mode family_of
    parse_ip_family_from_string parse_ip_family_from_env is_valid_network_type get_network_type
    type_or_default parse_network_type_from_string valid_config
choosy_config = refl

parse_network_config_of_pod_by_priority-Chosen_example : Chosen texts with_subnet config
parse_network_config_of_pod_by_priority-Chosen_example =
    parse_network_config_of_pod_by_priority-Chosen texts with_subnet [] (λ _. none) (λ _ _. ok [])
      (λ _ _. ok []) choosy config choosy_config
