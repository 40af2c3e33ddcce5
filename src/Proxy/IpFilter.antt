-- ===== src/Proxy/IpFilter.antt =====
-- src/routerbot/proxy/middleware/ip_filter.py. Python's ipaddress, and strip and split of texts, are
-- parameters; a request is what is read of it, and what `call_next` answers is `passed_on`.
pub mod Access
mod Examples
use routerbot.Base.{
  ℕ, String, Option, none, some, Bool, true, false, not, ◌&&◌, ◌||◌, List, [], ◌∷◌, if◌then◌else◌,
  any, string_eq, ◌==◌,
}

-- ipaddress, with None for the ValueError, and the texts' strip() and split(",")[0].
pub record Addresses (Address Network : Type 0) : Type 0 where
  pub ip_network : String → Option Network
  pub ip_address : String → Option Address
  pub within : Address → Network → Bool
  pub strip : String → String
  pub before_comma : String → String

pub record Request : Type 0 where
  pub x_forwarded_for : Option String
  pub client_host : Option String

pub data Response : Type 0 where
  forbidden : String → Response
  passed_on : Response

pub record IpFilter (Network : Type 0) : Type 0 where
  pub allowed : List Network
  pub blocked : List Network
  pub trust_proxy : Bool
  pub enabled : Bool

-- bool(xs)
abbrev pub nonempty : {A : Type 0} → List A → Bool
nonempty [] = false
nonempty (x ∷ xs) = true

abbrev host_or_default : Option String → String
host_or_default none = "0.0.0.0"
host_or_default (some host) = host

module _ {Address Network : Type 0} (addresses : Addresses Address Network) where
  open addresses use {ip_network, ip_address, within, strip, before_comma}

  abbrev put_network : Option Network → List Network → List Network
  put_network none networks = networks
  put_network (some network) networks = network ∷ networks

  unfoldable pub parse_networks : List String → List Network
  parse_networks [] = []
  parse_networks (entry ∷ raw) = put_network (ip_network (strip entry)) (parse_networks raw)

  abbrev address_in : List Network → Option Address → Bool
  address_in networks none = false
  address_in networks (some addr) = any (λ net. within addr net) networks

  unfoldable pub ip_in_networks : String → List Network → Bool
  ip_in_networks ip_str networks = address_in networks (ip_address ip_str)

  abbrev forwarded_or : Option String → String → String
  forwarded_or none host = host
  forwarded_or (some forwarded) host =
      if forwarded == "" then host else strip (before_comma forwarded)

  unfoldable pub get_client_ip : Request → Bool → String
  get_client_ip request trust_proxy =
      let host = host_or_default request.client_host in
      if trust_proxy then forwarded_or request.x_forwarded_for host else host

  -- IPFilterMiddleware.__init__
  unfoldable pub init : List String → List String → Bool → IpFilter Network
  unfolding parse_networks
  init allowed_ips blocked_ips trust_proxy_headers =
      let allowed = parse_networks allowed_ips in
      let blocked = parse_networks blocked_ips in
      record {
        allowed = allowed;
        blocked = blocked;
        trust_proxy = trust_proxy_headers;
        enabled = nonempty allowed || nonempty blocked;
      }

  -- request.state.client_ip, and the response.
  unfoldable pub dispatch : IpFilter Network → Request → String × Response
  unfolding get_client_ip ip_in_networks
  dispatch f request =
      let client_ip = get_client_ip request f.trust_proxy in
      (
        client_ip,
        if not f.enabled
            then passed_on
            else if nonempty f.blocked && ip_in_networks client_ip f.blocked
            then forbidden client_ip
            else if nonempty f.allowed && not (ip_in_networks client_ip f.allowed)
            then forbidden client_ip
            else passed_on,
      )
