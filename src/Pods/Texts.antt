-- ===== src/Pods/Texts.antt =====
-- The texts that the controllers make from other texts: pkg/controllers/utils/format.go, ToDNSFormat of
-- pkg/utils/ip.go, pkg/utils/mac/format.go, TransferPodNameForLabelValue, and the parsers of
-- pkg/ipam/types/constants.go. Go's packages strings, strconv, net, os and md5 are parameters.
use Prim.Native.String.{◌++◌ as str_append}
use container_advanced_netwo.Common.{
  ℕ, zero, suc, ◌-◌, ◌+◌, Bool, true, false, ◌==◌, ltb, if◌then◌else◌, ite, Option, none, some,
  List, [], ◌∷◌, String, str_dec,
}
use container_advanced_netwo.Net.{NetIp, is_nil, to4, IpText}
use container_advanced_netwo.Ipam.Types.{
  NetworkType, underlay, overlay, global_bgp, other_type, IpFamilyMode, ipv4, ipv6, dual_stack,
  other_mode,
}

pub record Texts : Type 0 where
  pub split : String → String → List String
  pub count : String → String → ℕ
  -- strings.ReplaceAll: the text, what is replaced, and by what.
  pub replace_all : String → String → String → String
  pub to_lower : String → String
  -- strconv.Atoi, of a text without "-".
  pub atoi : String → Option ℕ
  pub parse_bool : String → Option Bool
  -- net.ParseMAC, and the text of what it returns.
  pub parse_mac : String → Option String
  -- IPNet.String.
  pub print_net : NetIp → ℕ → String
  pub text_length : String → ℕ
  -- The text up to a place and from it on, joined with the md5 sum of the rest.
  pub hash_from : ℕ → String → String
  -- The variables DEFAULT_IP_FAMILY and DEFAULT_NETWORK_TYPE.
  pub default_ip_family : String
  pub default_network_type : String

abbrev pub same_text : String → String → Bool
same_text a b = ite (str_dec a b) true false

-- As many separators as strings.Join takes, and one more, with "0" between them.
unfoldable pub joined_zeros : ℕ → String
joined_zeros zero = ":"
joined_zeros (suc n) = str_append ":0" (joined_zeros n)

module _ (t : IpText) (x : Texts) where
  -- unifyIPv6AddressString: 8 sections.
  unfoldable pub unify_ipv6_address_string : String → String
  unify_ipv6_address_string ip =
      let sections = x.count ip ":" + 1 in
      if ltb sections 8 then x.replace_all ip "::" (joined_zeros (9 - sections)) else ip

  -- ToDNSFormat.
  unfoldable pub to_dns_format : NetIp → String
  to_dns_format ip =
      if is_nil (to4 ip)
      then x.replace_all (unify_ipv6_address_string (t.print_ip ip)) ":" "-"
      else x.replace_all (t.print_ip ip) "." "-"

  -- ToIPFormat.
  unfoldable pub to_ip_format : String → String
  to_ip_format name =
      if x.count name "-" == 7
      then t.print_ip (t.parse_ip (x.replace_all name "-" ":"))
      else x.replace_all name "-" "."

module _ (x : Texts) where
  abbrev last_of : List String → String
  last_of [] = ""
  last_of (a ∷ []) = a
  last_of (a ∷ (b ∷ l)) = last_of (b ∷ l)

  -- GetIndexFromName: the greatest int32 where the name ends in no number.
  unfoldable pub get_index_from_name : String → ℕ
  get_index_from_name name = elim (x.atoi (last_of (x.split name "-"))) [
    | none ↦ 2147483647
    | some n ↦ n
  ]

  -- TransferPodNameForLabelValue.
  unfoldable pub transfer_pod_name_for_label_value : String → String
  transfer_pod_name_for_label_value name =
      if ltb 63 (x.text_length name) then x.hash_from 31 name else name

  -- NormalizeMAC.
  unfoldable pub normalize_mac : String → String
  normalize_mac mac = elim (x.parse_mac mac) [ none ↦ "" | some text ↦ text ]

  -- ParseBoolOrDefault.
  unfoldable pub parse_bool_or_default : String → Bool → Bool
  parse_bool_or_default text default = elim (x.parse_bool text) [ none ↦ default | some b ↦ b ]

  -- The text is that of a constant, or of its alias, in lower case.
  abbrev is_word : String → String → Bool
  is_word text word = same_text (x.to_lower text) (x.to_lower word)

  -- ParseIPFamilyFromEnv.
  unfoldable pub parse_ip_family_from_env : IpFamilyMode
  parse_ip_family_from_env =
      let text = x.default_ip_family in
      if is_word text "IPv4Only"
      then ipv4
      else if is_word text "IPv4"
      then ipv4
      else if same_text (x.to_lower text) ""
      then ipv4
      else if is_word text "IPv6Only"
      then ipv6
      else if is_word text "IPv6"
      then ipv6
      else if is_word text "DualStack"
      then dual_stack
      else other_mode text

  -- ParseIPFamilyFromString.
  unfoldable pub parse_ip_family_from_string : String → IpFamilyMode
  parse_ip_family_from_string text =
      if same_text (x.to_lower text) ""
      then parse_ip_family_from_env
      else if is_word text "IPv4Only"
      then ipv4
      else if is_word text "IPv4"
      then ipv4
      else if is_word text "IPv6Only"
      then ipv6
      else if is_word text "IPv6"
      then ipv6
      else if is_word text "DualStack"
      then dual_stack
      else other_mode text

  -- ParseNetworkTypeFromEnv.
  unfoldable pub parse_network_type_from_env : NetworkType
  parse_network_type_from_env =
      let text = x.default_network_type in
      if is_word text "Underlay"
      then underlay
      else if same_text (x.to_lower text) ""
      then underlay
      else if is_word text "Overlay"
      then overlay
      else if is_word text "GlobalBGP"
      then global_bgp
      else other_type text

  -- ParseNetworkTypeFromString.
  unfoldable pub parse_network_type_from_string : String → NetworkType
  parse_network_type_from_string text =
      if is_word text "Underlay"
      then underlay
      else if is_word text "Overlay"
      then overlay
      else if is_word text "GlobalBGP"
      then global_bgp
      else if same_text (x.to_lower text) ""
      then parse_network_type_from_env
      else other_type text
